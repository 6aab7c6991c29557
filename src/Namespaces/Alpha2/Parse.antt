-- ===== src/Namespaces/Alpha2/Parse.antt =====
-- The parser of src/definitions/namespaces/org_iso_18013_5_1/alpha2.rs.
use isomdl.Prelude.{[], ◌∷◌, Result, ok_or}
use isomdl.Prelude.Text.{Text, codes}
use isomdl.Namespaces.Arms.{Arms, first_arm}
use isomdl.Namespaces.Alpha2.{
  Alpha2, code_ad, code_ae, code_af, code_ag, code_ai, code_al, code_am, code_ao, code_aq, code_ar,
  code_as, code_at, code_au, code_aw, code_ax, code_az, code_ba, code_bb, code_bd, code_be, code_bf,
  code_bg, code_bh, code_bi, code_bj, code_bl, code_bm, code_bn, code_bo, code_bq, code_br, code_bs,
  code_bt, code_bv, code_bw, code_by, code_bz, code_ca, code_cc, code_cd, code_cf, code_cg, code_ch,
  code_ci, code_ck, code_cl, code_cm, code_cn, code_co, code_cr, code_cu, code_cv, code_cw, code_cx,
  code_cy, code_cz, code_de, code_dj, code_dk, code_dm, code_do, code_dz, code_ec, code_ee, code_eg,
  code_eh, code_er, code_es, code_et, code_fi, code_fj, code_fk, code_fm, code_fo, code_fr, code_ga,
  code_gb, code_gd, code_ge, code_gf, code_gg, code_gh, code_gi, code_gl, code_gm, code_gn, code_gp,
  code_gq, code_gr, code_gs, code_gt, code_gu, code_gw, code_gy, code_hk, code_hm, code_hn, code_hr,
  code_ht, code_hu, code_id, code_ie, code_il, code_im, code_in, code_io, code_iq, code_ir, code_is,
  code_it, code_je, code_jm, code_jo, code_jp, code_ke, code_kg, code_kh, code_ki, code_km, code_kn,
  code_kp, code_kr, code_kw, code_ky, code_kz, code_la, code_lb, code_lc, code_li, code_lk, code_lr,
  code_ls, code_lt, code_lu, code_lv, code_ly, code_ma, code_mc, code_md, code_me, code_mf, code_mg,
  code_mh, code_mk, code_ml, code_mm, code_mn, code_mo, code_mp, code_mq, code_mr, code_ms, code_mt,
  code_mu, code_mv, code_mw, code_mx, code_my, code_mz, code_na, code_nc, code_ne, code_nf, code_ng,
  code_ni, code_nl, code_no, code_np, code_nr, code_nu, code_nz, code_om, code_pa, code_pe, code_pf,
  code_pg, code_ph, code_pk, code_pl, code_pm, code_pn, code_pr, code_ps, code_pt, code_pw, code_py,
  code_qa, code_re, code_ro, code_rs, code_ru, code_rw, code_sa, code_sb, code_sc, code_sd, code_se,
  code_sg, code_sh, code_si, code_sj, code_sk, code_sl, code_sm, code_sn, code_so, code_sr, code_ss,
  code_st, code_sv, code_sx, code_sy, code_sz, code_tc, code_td, code_tf, code_tg, code_th, code_tj,
  code_tk, code_tl, code_tm, code_tn, code_to, code_tr, code_tt, code_tv, code_tw, code_tz, code_ua,
  code_ug, code_um, code_us, code_uy, code_uz, code_va, code_vc, code_ve, code_vg, code_vi, code_vn,
  code_vu, code_wf, code_ws, code_ye, code_yt, code_za, code_zm, code_zw,
}

pub data Error : Type 0 where
  unrecognized : Text → Error

-- the arms of the `match`, in order
unfoldable pub arms : Arms Alpha2
arms =
    (codes "AD", code_ad)
    ∷ (codes "AE", code_ae)
    ∷ (codes "AF", code_af)
    ∷ (codes "AG", code_ag)
    ∷ (codes "AI", code_ai)
    ∷ (codes "AL", code_al)
    ∷ (codes "AM", code_am)
    ∷ (codes "AO", code_ao)
    ∷ (codes "AQ", code_aq)
    ∷ (codes "AR", code_ar)
    ∷ (codes "AS", code_as)
    ∷ (codes "AT", code_at)
    ∷ (codes "AU", code_au)
    ∷ (codes "AW", code_aw)
    ∷ (codes "AX", code_ax)
    ∷ (codes "AZ", code_az)
    ∷ (codes "BA", code_ba)
    ∷ (codes "BB", code_bb)
    ∷ (codes "BD", code_bd)
    ∷ (codes "BE", code_be)
    ∷ (codes "BF", code_bf)
    ∷ (codes "BG", code_bg)
    ∷ (codes "BH", code_bh)
    ∷ (codes "BI", code_bi)
    ∷ (codes "BJ", code_bj)
    ∷ (codes "BL", code_bl)
    ∷ (codes "BM", code_bm)
    ∷ (codes "BN", code_bn)
    ∷ (codes "BO", code_bo)
    ∷ (codes "BQ", code_bq)
    ∷ (codes "BR", code_br)
    ∷ (codes "BS", code_bs)
    ∷ (codes "BT", code_bt)
    ∷ (codes "BV", code_bv)
    ∷ (codes "BW", code_bw)
    ∷ (codes "BY", code_by)
    ∷ (codes "BZ", code_bz)
    ∷ (codes "CA", code_ca)
    ∷ (codes "CC", code_cc)
    ∷ (codes "CD", code_cd)
    ∷ (codes "CF", code_cf)
    ∷ (codes "CG", code_cg)
    ∷ (codes "CH", code_ch)
    ∷ (codes "CI", code_ci)
    ∷ (codes "CK", code_ck)
    ∷ (codes "CL", code_cl)
    ∷ (codes "CM", code_cm)
    ∷ (codes "CN", code_cn)
    ∷ (codes "CO", code_co)
    ∷ (codes "CR", code_cr)
    ∷ (codes "CU", code_cu)
    ∷ (codes "CV", code_cv)
    ∷ (codes "CW", code_cw)
    ∷ (codes "CX", code_cx)
    ∷ (codes "CY", code_cy)
    ∷ (codes "CZ", code_cz)
    ∷ (codes "DE", code_de)
    ∷ (codes "DJ", code_dj)
    ∷ (codes "DK", code_dk)
    ∷ (codes "DM", code_dm)
    ∷ (codes "DO", code_do)
    ∷ (codes "DZ", code_dz)
    ∷ (codes "EC", code_ec)
    ∷ (codes "EE", code_ee)
    ∷ (codes "EG", code_eg)
    ∷ (codes "EH", code_eh)
    ∷ (codes "ER", code_er)
    ∷ (codes "ES", code_es)
    ∷ (codes "ET", code_et)
    ∷ (codes "FI", code_fi)
    ∷ (codes "FJ", code_fj)
    ∷ (codes "FK", code_fk)
    ∷ (codes "FM", code_fm)
    ∷ (codes "FO", code_fo)
    ∷ (codes "FR", code_fr)
    ∷ (codes "GA", code_ga)
    ∷ (codes "GB", code_gb)
    ∷ (codes "GD", code_gd)
    ∷ (codes "GE", code_ge)
    ∷ (codes "GF", code_gf)
    ∷ (codes "GG", code_gg)
    ∷ (codes "GH", code_gh)
    ∷ (codes "GI", code_gi)
    ∷ (codes "GL", code_gl)
    ∷ (codes "GM", code_gm)
    ∷ (codes "GN", code_gn)
    ∷ (codes "GP", code_gp)
    ∷ (codes "GQ", code_gq)
    ∷ (codes "GR", code_gr)
    ∷ (codes "GS", code_gs)
    ∷ (codes "GT", code_gt)
    ∷ (codes "GU", code_gu)
    ∷ (codes "GW", code_gw)
    ∷ (codes "GY", code_gy)
    ∷ (codes "HK", code_hk)
    ∷ (codes "HM", code_hm)
    ∷ (codes "HN", code_hn)
    ∷ (codes "HR", code_hr)
    ∷ (codes "HT", code_ht)
    ∷ (codes "HU", code_hu)
    ∷ (codes "ID", code_id)
    ∷ (codes "IE", code_ie)
    ∷ (codes "IL", code_il)
    ∷ (codes "IM", code_im)
    ∷ (codes "IN", code_in)
    ∷ (codes "IO", code_io)
    ∷ (codes "IQ", code_iq)
    ∷ (codes "IR", code_ir)
    ∷ (codes "IS", code_is)
    ∷ (codes "IT", code_it)
    ∷ (codes "JE", code_je)
    ∷ (codes "JM", code_jm)
    ∷ (codes "JO", code_jo)
    ∷ (codes "JP", code_jp)
    ∷ (codes "KE", code_ke)
    ∷ (codes "KG", code_kg)
    ∷ (codes "KH", code_kh)
    ∷ (codes "KI", code_ki)
    ∷ (codes "KM", code_km)
    ∷ (codes "KN", code_kn)
    ∷ (codes "KP", code_kp)
    ∷ (codes "KR", code_kr)
    ∷ (codes "KW", code_kw)
    ∷ (codes "KY", code_ky)
    ∷ (codes "KZ", code_kz)
    ∷ (codes "LA", code_la)
    ∷ (codes "LB", code_lb)
    ∷ (codes "LC", code_lc)
    ∷ (codes "LI", code_li)
    ∷ (codes "LK", code_lk)
    ∷ (codes "LR", code_lr)
    ∷ (codes "LS", code_ls)
    ∷ (codes "LT", code_lt)
    ∷ (codes "LU", code_lu)
    ∷ (codes "LV", code_lv)
    ∷ (codes "LY", code_ly)
    ∷ (codes "MA", code_ma)
    ∷ (codes "MC", code_mc)
    ∷ (codes "MD", code_md)
    ∷ (codes "ME", code_me)
    ∷ (codes "MF", code_mf)
    ∷ (codes "MG", code_mg)
    ∷ (codes "MH", code_mh)
    ∷ (codes "MK", code_mk)
    ∷ (codes "ML", code_ml)
    ∷ (codes "MM", code_mm)
    ∷ (codes "MN", code_mn)
    ∷ (codes "MO", code_mo)
    ∷ (codes "MP", code_mp)
    ∷ (codes "MQ", code_mq)
    ∷ (codes "MR", code_mr)
    ∷ (codes "MS", code_ms)
    ∷ (codes "MT", code_mt)
    ∷ (codes "MU", code_mu)
    ∷ (codes "MV", code_mv)
    ∷ (codes "MW", code_mw)
    ∷ (codes "MX", code_mx)
    ∷ (codes "MY", code_my)
    ∷ (codes "MZ", code_mz)
    ∷ (codes "NA", code_na)
    ∷ (codes "NC", code_nc)
    ∷ (codes "NE", code_ne)
    ∷ (codes "NF", code_nf)
    ∷ (codes "NG", code_ng)
    ∷ (codes "NI", code_ni)
    ∷ (codes "NL", code_nl)
    ∷ (codes "NO", code_no)
    ∷ (codes "NP", code_np)
    ∷ (codes "NR", code_nr)
    ∷ (codes "NU", code_nu)
    ∷ (codes "NZ", code_nz)
    ∷ (codes "OM", code_om)
    ∷ (codes "PA", code_pa)
    ∷ (codes "PE", code_pe)
    ∷ (codes "PF", code_pf)
    ∷ (codes "PG", code_pg)
    ∷ (codes "PH", code_ph)
    ∷ (codes "PK", code_pk)
    ∷ (codes "PL", code_pl)
    ∷ (codes "PM", code_pm)
    ∷ (codes "PN", code_pn)
    ∷ (codes "PR", code_pr)
    ∷ (codes "PS", code_ps)
    ∷ (codes "PT", code_pt)
    ∷ (codes "PW", code_pw)
    ∷ (codes "PY", code_py)
    ∷ (codes "QA", code_qa)
    ∷ (codes "RE", code_re)
    ∷ (codes "RO", code_ro)
    ∷ (codes "RS", code_rs)
    ∷ (codes "RU", code_ru)
    ∷ (codes "RW", code_rw)
    ∷ (codes "SA", code_sa)
    ∷ (codes "SB", code_sb)
    ∷ (codes "SC", code_sc)
    ∷ (codes "SD", code_sd)
    ∷ (codes "SE", code_se)
    ∷ (codes "SG", code_sg)
    ∷ (codes "SH", code_sh)
    ∷ (codes "SI", code_si)
    ∷ (codes "SJ", code_sj)
    ∷ (codes "SK", code_sk)
    ∷ (codes "SL", code_sl)
    ∷ (codes "SM", code_sm)
    ∷ (codes "SN", code_sn)
    ∷ (codes "SO", code_so)
    ∷ (codes "SR", code_sr)
    ∷ (codes "SS", code_ss)
    ∷ (codes "ST", code_st)
    ∷ (codes "SV", code_sv)
    ∷ (codes "SX", code_sx)
    ∷ (codes "SY", code_sy)
    ∷ (codes "SZ", code_sz)
    ∷ (codes "TC", code_tc)
    ∷ (codes "TD", code_td)
    ∷ (codes "TF", code_tf)
    ∷ (codes "TG", code_tg)
    ∷ (codes "TH", code_th)
    ∷ (codes "TJ", code_tj)
    ∷ (codes "TK", code_tk)
    ∷ (codes "TL", code_tl)
    ∷ (codes "TM", code_tm)
    ∷ (codes "TN", code_tn)
    ∷ (codes "TO", code_to)
    ∷ (codes "TR", code_tr)
    ∷ (codes "TT", code_tt)
    ∷ (codes "TV", code_tv)
    ∷ (codes "TW", code_tw)
    ∷ (codes "TZ", code_tz)
    ∷ (codes "UA", code_ua)
    ∷ (codes "UG", code_ug)
    ∷ (codes "UM", code_um)
    ∷ (codes "US", code_us)
    ∷ (codes "UY", code_uy)
    ∷ (codes "UZ", code_uz)
    ∷ (codes "VA", code_va)
    ∷ (codes "VC", code_vc)
    ∷ (codes "VE", code_ve)
    ∷ (codes "VG", code_vg)
    ∷ (codes "VI", code_vi)
    ∷ (codes "VN", code_vn)
    ∷ (codes "VU", code_vu)
    ∷ (codes "WF", code_wf)
    ∷ (codes "WS", code_ws)
    ∷ (codes "YE", code_ye)
    ∷ (codes "YT", code_yt)
    ∷ (codes "ZA", code_za)
    ∷ (codes "ZM", code_zm)
    ∷ (codes "ZW", code_zw)
    ∷ []

unfoldable pub from_str : Text → Result Error Alpha2
from_str s = ok_or (first_arm arms s) (unrecognized s)
