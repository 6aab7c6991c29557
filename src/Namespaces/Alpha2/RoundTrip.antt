-- ===== src/Namespaces/Alpha2/RoundTrip.antt =====
-- Reading and printing of the texts of src/definitions/namespaces/org_iso_18013_5_1/alpha2.rs.
use isomdl.Prelude.{◌≡◌, refl, ◌↔◌, sym, subst, true, ok, arith, Option-cases, inl, inr}
use isomdl.Prelude.Text.{Text, text_eq}
use isomdl.Namespaces.Arms.{first_arm, every_arm, first_arm_sound}
use isomdl.Namespaces.Alpha2.{
  Alpha2, as_str, code_ad, code_ae, code_af, code_ag, code_ai, code_al, code_am, code_ao, code_aq,
  code_ar, code_as, code_at, code_au, code_aw, code_ax, code_az, code_ba, code_bb, code_bd, code_be,
  code_bf, code_bg, code_bh, code_bi, code_bj, code_bl, code_bm, code_bn, code_bo, code_bq, code_br,
  code_bs, code_bt, code_bv, code_bw, code_by, code_bz, code_ca, code_cc, code_cd, code_cf, code_cg,
  code_ch, code_ci, code_ck, code_cl, code_cm, code_cn, code_co, code_cr, code_cu, code_cv, code_cw,
  code_cx, code_cy, code_cz, code_de, code_dj, code_dk, code_dm, code_do, code_dz, code_ec, code_ee,
  code_eg, code_eh, code_er, code_es, code_et, code_fi, code_fj, code_fk, code_fm, code_fo, code_fr,
  code_ga, code_gb, code_gd, code_ge, code_gf, code_gg, code_gh, code_gi, code_gl, code_gm, code_gn,
  code_gp, code_gq, code_gr, code_gs, code_gt, code_gu, code_gw, code_gy, code_hk, code_hm, code_hn,
  code_hr, code_ht, code_hu, code_id, code_ie, code_il, code_im, code_in, code_io, code_iq, code_ir,
  code_is, code_it, code_je, code_jm, code_jo, code_jp, code_ke, code_kg, code_kh, code_ki, code_km,
  code_kn, code_kp, code_kr, code_kw, code_ky, code_kz, code_la, code_lb, code_lc, code_li, code_lk,
  code_lr, code_ls, code_lt, code_lu, code_lv, code_ly, code_ma, code_mc, code_md, code_me, code_mf,
  code_mg, code_mh, code_mk, code_ml, code_mm, code_mn, code_mo, code_mp, code_mq, code_mr, code_ms,
  code_mt, code_mu, code_mv, code_mw, code_mx, code_my, code_mz, code_na, code_nc, code_ne, code_nf,
  code_ng, code_ni, code_nl, code_no, code_np, code_nr, code_nu, code_nz, code_om, code_pa, code_pe,
  code_pf, code_pg, code_ph, code_pk, code_pl, code_pm, code_pn, code_pr, code_ps, code_pt, code_pw,
  code_py, code_qa, code_re, code_ro, code_rs, code_ru, code_rw, code_sa, code_sb, code_sc, code_sd,
  code_se, code_sg, code_sh, code_si, code_sj, code_sk, code_sl, code_sm, code_sn, code_so, code_sr,
  code_ss, code_st, code_sv, code_sx, code_sy, code_sz, code_tc, code_td, code_tf, code_tg, code_th,
  code_tj, code_tk, code_tl, code_tm, code_tn, code_to, code_tr, code_tt, code_tv, code_tw, code_tz,
  code_ua, code_ug, code_um, code_us, code_uy, code_uz, code_va, code_vc, code_ve, code_vg, code_vi,
  code_vn, code_vu, code_wf, code_ws, code_ye, code_yt, code_za, code_zm, code_zw,
}
use isomdl.Namespaces.Alpha2.Parse.{arms, from_str}

arms_agree : every_arm as_str arms ≡ true
unfolding arms as_str every_arm text_eq
arms_agree = refl

from_str-as_str : (a : Alpha2) → from_str (as_str a) ≡ ok a
unfolding from_str as_str arms first_arm text_eq
from_str-as_str code_ad = refl
from_str-as_str code_ae = refl
from_str-as_str code_af = refl
from_str-as_str code_ag = refl
from_str-as_str code_ai = refl
from_str-as_str code_al = refl
from_str-as_str code_am = refl
from_str-as_str code_ao = refl
from_str-as_str code_aq = refl
from_str-as_str code_ar = refl
from_str-as_str code_as = refl
from_str-as_str code_at = refl
from_str-as_str code_au = refl
from_str-as_str code_aw = refl
from_str-as_str code_ax = refl
from_str-as_str code_az = refl
from_str-as_str code_ba = refl
from_str-as_str code_bb = refl
from_str-as_str code_bd = refl
from_str-as_str code_be = refl
from_str-as_str code_bf = refl
from_str-as_str code_bg = refl
from_str-as_str code_bh = refl
from_str-as_str code_bi = refl
from_str-as_str code_bj = refl
from_str-as_str code_bl = refl
from_str-as_str code_bm = refl
from_str-as_str code_bn = refl
from_str-as_str code_bo = refl
from_str-as_str code_bq = refl
from_str-as_str code_br = refl
from_str-as_str code_bs = refl
from_str-as_str code_bt = refl
from_str-as_str code_bv = refl
from_str-as_str code_bw = refl
from_str-as_str code_by = refl
from_str-as_str code_bz = refl
from_str-as_str code_ca = refl
from_str-as_str code_cc = refl
from_str-as_str code_cd = refl
from_str-as_str code_cf = refl
from_str-as_str code_cg = refl
from_str-as_str code_ch = refl
from_str-as_str code_ci = refl
from_str-as_str code_ck = refl
from_str-as_str code_cl = refl
from_str-as_str code_cm = refl
from_str-as_str code_cn = refl
from_str-as_str code_co = refl
from_str-as_str code_cr = refl
from_str-as_str code_cu = refl
from_str-as_str code_cv = refl
from_str-as_str code_cw = refl
from_str-as_str code_cx = refl
from_str-as_str code_cy = refl
from_str-as_str code_cz = refl
from_str-as_str code_de = refl
from_str-as_str code_dj = refl
from_str-as_str code_dk = refl
from_str-as_str code_dm = refl
from_str-as_str code_do = refl
from_str-as_str code_dz = refl
from_str-as_str code_ec = refl
from_str-as_str code_ee = refl
from_str-as_str code_eg = refl
from_str-as_str code_eh = refl
from_str-as_str code_er = refl
from_str-as_str code_es = refl
from_str-as_str code_et = refl
from_str-as_str code_fi = refl
from_str-as_str code_fj = refl
from_str-as_str code_fk = refl
from_str-as_str code_fm = refl
from_str-as_str code_fo = refl
from_str-as_str code_fr = refl
from_str-as_str code_ga = refl
from_str-as_str code_gb = refl
from_str-as_str code_gd = refl
from_str-as_str code_ge = refl
from_str-as_str code_gf = refl
from_str-as_str code_gg = refl
from_str-as_str code_gh = refl
from_str-as_str code_gi = refl
from_str-as_str code_gl = refl
from_str-as_str code_gm = refl
from_str-as_str code_gn = refl
from_str-as_str code_gp = refl
from_str-as_str code_gq = refl
from_str-as_str code_gr = refl
from_str-as_str code_gs = refl
from_str-as_str code_gt = refl
from_str-as_str code_gu = refl
from_str-as_str code_gw = refl
from_str-as_str code_gy = refl
from_str-as_str code_hk = refl
from_str-as_str code_hm = refl
from_str-as_str code_hn = refl
from_str-as_str code_hr = refl
from_str-as_str code_ht = refl
from_str-as_str code_hu = refl
from_str-as_str code_id = refl
from_str-as_str code_ie = refl
from_str-as_str code_il = refl
from_str-as_str code_im = refl
from_str-as_str code_in = refl
from_str-as_str code_io = refl
from_str-as_str code_iq = refl
from_str-as_str code_ir = refl
from_str-as_str code_is = refl
from_str-as_str code_it = refl
from_str-as_str code_je = refl
from_str-as_str code_jm = refl
from_str-as_str code_jo = refl
from_str-as_str code_jp = refl
from_str-as_str code_ke = refl
from_str-as_str code_kg = refl
from_str-as_str code_kh = refl
from_str-as_str code_ki = refl
from_str-as_str code_km = refl
from_str-as_str code_kn = refl
from_str-as_str code_kp = refl
from_str-as_str code_kr = refl
from_str-as_str code_kw = refl
from_str-as_str code_ky = refl
from_str-as_str code_kz = refl
from_str-as_str code_la = refl
from_str-as_str code_lb = refl
from_str-as_str code_lc = refl
from_str-as_str code_li = refl
from_str-as_str code_lk = refl
from_str-as_str code_lr = refl
from_str-as_str code_ls = refl
from_str-as_str code_lt = refl
from_str-as_str code_lu = refl
from_str-as_str code_lv = refl
from_str-as_str code_ly = refl
from_str-as_str code_ma = refl
from_str-as_str code_mc = refl
from_str-as_str code_md = refl
from_str-as_str code_me = refl
from_str-as_str code_mf = refl
from_str-as_str code_mg = refl
from_str-as_str code_mh = refl
from_str-as_str code_mk = refl
from_str-as_str code_ml = refl
from_str-as_str code_mm = refl
from_str-as_str code_mn = refl
from_str-as_str code_mo = refl
from_str-as_str code_mp = refl
from_str-as_str code_mq = refl
from_str-as_str code_mr = refl
from_str-as_str code_ms = refl
from_str-as_str code_mt = refl
from_str-as_str code_mu = refl
from_str-as_str code_mv = refl
from_str-as_str code_mw = refl
from_str-as_str code_mx = refl
from_str-as_str code_my = refl
from_str-as_str code_mz = refl
from_str-as_str code_na = refl
from_str-as_str code_nc = refl
from_str-as_str code_ne = refl
from_str-as_str code_nf = refl
from_str-as_str code_ng = refl
from_str-as_str code_ni = refl
from_str-as_str code_nl = refl
from_str-as_str code_no = refl
from_str-as_str code_np = refl
from_str-as_str code_nr = refl
from_str-as_str code_nu = refl
from_str-as_str code_nz = refl
from_str-as_str code_om = refl
from_str-as_str code_pa = refl
from_str-as_str code_pe = refl
from_str-as_str code_pf = refl
from_str-as_str code_pg = refl
from_str-as_str code_ph = refl
from_str-as_str code_pk = refl
from_str-as_str code_pl = refl
from_str-as_str code_pm = refl
from_str-as_str code_pn = refl
from_str-as_str code_pr = refl
from_str-as_str code_ps = refl
from_str-as_str code_pt = refl
from_str-as_str code_pw = refl
from_str-as_str code_py = refl
from_str-as_str code_qa = refl
from_str-as_str code_re = refl
from_str-as_str code_ro = refl
from_str-as_str code_rs = refl
from_str-as_str code_ru = refl
from_str-as_str code_rw = refl
from_str-as_str code_sa = refl
from_str-as_str code_sb = refl
from_str-as_str code_sc = refl
from_str-as_str code_sd = refl
from_str-as_str code_se = refl
from_str-as_str code_sg = refl
from_str-as_str code_sh = refl
from_str-as_str code_si = refl
from_str-as_str code_sj = refl
from_str-as_str code_sk = refl
from_str-as_str code_sl = refl
from_str-as_str code_sm = refl
from_str-as_str code_sn = refl
from_str-as_str code_so = refl
from_str-as_str code_sr = refl
from_str-as_str code_ss = refl
from_str-as_str code_st = refl
from_str-as_str code_sv = refl
from_str-as_str code_sx = refl
from_str-as_str code_sy = refl
from_str-as_str code_sz = refl
from_str-as_str code_tc = refl
from_str-as_str code_td = refl
from_str-as_str code_tf = refl
from_str-as_str code_tg = refl
from_str-as_str code_th = refl
from_str-as_str code_tj = refl
from_str-as_str code_tk = refl
from_str-as_str code_tl = refl
from_str-as_str code_tm = refl
from_str-as_str code_tn = refl
from_str-as_str code_to = refl
from_str-as_str code_tr = refl
from_str-as_str code_tt = refl
from_str-as_str code_tv = refl
from_str-as_str code_tw = refl
from_str-as_str code_tz = refl
from_str-as_str code_ua = refl
from_str-as_str code_ug = refl
from_str-as_str code_um = refl
from_str-as_str code_us = refl
from_str-as_str code_uy = refl
from_str-as_str code_uz = refl
from_str-as_str code_va = refl
from_str-as_str code_vc = refl
from_str-as_str code_ve = refl
from_str-as_str code_vg = refl
from_str-as_str code_vi = refl
from_str-as_str code_vn = refl
from_str-as_str code_vu = refl
from_str-as_str code_wf = refl
from_str-as_str code_ws = refl
from_str-as_str code_ye = refl
from_str-as_str code_yt = refl
from_str-as_str code_za = refl
from_str-as_str code_zm = refl
from_str-as_str code_zw = refl

as_str-from_str : {s : Text} {a : Alpha2} → from_str s ≡ ok a → s ≡ as_str a
unfolding from_str
as_str-from_str {s} {a} h = elim (Option-cases (first_arm arms s)) [
  | inl e ↦ absurd (ground (arith, e))
  | inr (b, e) ↦ first_arm_sound as_str arms s arms_agree (ground (arith, e))
]

-- A text is read as a country code exactly when it is that code's text.
pub from_str_exact : (s : Text) (a : Alpha2) → (from_str s ≡ ok a) ↔ (s ≡ as_str a)
from_str_exact s a =
    (λ h. as_str-from_str h, λ h. subst (λ x. from_str x ≡ ok a) (sym h) (from_str-as_str a))
