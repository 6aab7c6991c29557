-- ===== src/Namespaces/UnDistinguishingSign/RoundTrip.antt =====
-- Reading and printing of the texts of src/definitions/namespaces/org_iso_18013_5_1/un_distinguishing_sign.rs.
use isomdl.Prelude.{◌≡◌, refl, sym, ap, ◌∙◌, Bool, true, false, Option-cases, inl, inr}
use isomdl.Prelude.Text.{Text, text_eq}
use isomdl.Namespaces.Arms.{first_arm, every_arm, first_arm_sound}
use isomdl.Namespaces.UnDistinguishingSign.{
  UnDistinguishingSign, to_string, none_applicable, sign_a, sign_afg, sign_al, sign_am, sign_and,
  sign_aus, sign_az, sign_b, sign_bd, sign_bds, sign_bf, sign_bg, sign_bh, sign_bih, sign_bol,
  sign_br, sign_brn, sign_bru, sign_bs, sign_bur, sign_bvi, sign_bw, sign_by, sign_cam, sign_cdn,
  sign_ch, sign_ci, sign_cl, sign_co, sign_cr, sign_cu, sign_cy, sign_cz, sign_d, sign_dk, sign_dom,
  sign_dy, sign_dz, sign_e, sign_eak, sign_eat, sign_eau, sign_eaz, sign_ec, sign_er, sign_es,
  sign_est, sign_et, sign_eth, sign_f, sign_fin, sign_fji, sign_fl, sign_fo, sign_g, sign_gb,
  sign_gba, sign_gbg, sign_gbj, sign_gbm, sign_gbz, sign_gca, sign_ge, sign_gh, sign_gr, sign_guy,
  sign_h, sign_hkj, sign_hr, sign_i, sign_il, sign_ind, sign_ir, sign_irl, sign_irq, sign_is,
  sign_j, sign_ja, sign_k, sign_kg, sign_kwt, sign_kz, sign_l, sign_lao, sign_lar, sign_lb, sign_ls,
  sign_lt, sign_lv, sign_m, sign_ma, sign_mal, sign_mc, sign_md, sign_mex, sign_mgl, sign_mk,
  sign_mne, sign_moc, sign_ms, sign_mw, sign_n, sign_na, sign_nam, sign_nau, sign_nep, sign_nic,
  sign_nl, sign_nz, sign_p, sign_pa, sign_pe, sign_pk, sign_pl, sign_png, sign_py, sign_q, sign_ra,
  sign_rc, sign_rca, sign_rcb, sign_rch, sign_rg, sign_rh, sign_ri, sign_rim, sign_rl, sign_rm,
  sign_rmm, sign_rn, sign_rnr, sign_ro, sign_rok, sign_rou, sign_rp, sign_rsm, sign_ru, sign_rus,
  sign_rwa, sign_s, sign_sa, sign_sd, sign_sgp, sign_sk, sign_slo, sign_sme, sign_sn, sign_so,
  sign_srb, sign_sud, sign_sy, sign_syr, sign_t, sign_tch, sign_td, sign_tg, sign_tj, sign_tm,
  sign_tn, sign_tr, sign_tt, sign_tza, sign_ua, sign_uae, sign_usa, sign_uz, sign_v, sign_vn,
  sign_wag, sign_wal, sign_wan, sign_wd, sign_wg, sign_wl, sign_ws, sign_wv, sign_yar, sign_yv,
  sign_za, sign_zre, sign_zw,
}
use isomdl.Namespaces.UnDistinguishingSign.Parse.{arms, from_string, or_none_applicable}

signs_agree : every_arm to_string arms ≡ true
unfolding arms to_string every_arm text_eq
signs_agree = refl

-- A text that is read as a sign, or as none applicable, is written back as the same text.
pub to_string-from_string : (s : Text) → to_string (from_string s) ≡ s
unfolding from_string to_string
to_string-from_string s = elim (Option-cases (first_arm arms s)) [
  | inl e ↦ ap (λ o. to_string (or_none_applicable o s)) e
  | inr (b, e) ↦
      ap (λ o. to_string (or_none_applicable o s)) e
      ∙ sym (first_arm_sound to_string arms s signs_agree e)
]

-- a sign of the table, or a text that is none
abbrev pub is_named : UnDistinguishingSign → Bool
is_named (none_applicable _) = false
is_named _ = true

-- Every sign of the table is read back from its text.
pub from_string-to_string :
    (c : UnDistinguishingSign) → is_named c ≡ true → from_string (to_string c) ≡ c
unfolding from_string to_string arms first_arm text_eq
from_string-to_string (none_applicable s) h = cc
from_string-to_string sign_a h = refl
from_string-to_string sign_afg h = refl
from_string-to_string sign_al h = refl
from_string-to_string sign_am h = refl
from_string-to_string sign_and h = refl
from_string-to_string sign_aus h = refl
from_string-to_string sign_az h = refl
from_string-to_string sign_b h = refl
from_string-to_string sign_bd h = refl
from_string-to_string sign_bds h = refl
from_string-to_string sign_bf h = refl
from_string-to_string sign_bg h = refl
from_string-to_string sign_bh h = refl
from_string-to_string sign_bih h = refl
from_string-to_string sign_bol h = refl
from_string-to_string sign_br h = refl
from_string-to_string sign_brn h = refl
from_string-to_string sign_bru h = refl
from_string-to_string sign_bs h = refl
from_string-to_string sign_bur h = refl
from_string-to_string sign_bvi h = refl
from_string-to_string sign_bw h = refl
from_string-to_string sign_by h = refl
from_string-to_string sign_cam h = refl
from_string-to_string sign_cdn h = refl
from_string-to_string sign_ch h = refl
from_string-to_string sign_ci h = refl
from_string-to_string sign_cl h = refl
from_string-to_string sign_co h = refl
from_string-to_string sign_cr h = refl
from_string-to_string sign_cu h = refl
from_string-to_string sign_cy h = refl
from_string-to_string sign_cz h = refl
from_string-to_string sign_d h = refl
from_string-to_string sign_dk h = refl
from_string-to_string sign_dom h = refl
from_string-to_string sign_dy h = refl
from_string-to_string sign_dz h = refl
from_string-to_string sign_e h = refl
from_string-to_string sign_eak h = refl
from_string-to_string sign_eat h = refl
from_string-to_string sign_eau h = refl
from_string-to_string sign_eaz h = refl
from_string-to_string sign_ec h = refl
from_string-to_string sign_er h = refl
from_string-to_string sign_es h = refl
from_string-to_string sign_est h = refl
from_string-to_string sign_et h = refl
from_string-to_string sign_eth h = refl
from_string-to_string sign_f h = refl
from_string-to_string sign_fin h = refl
from_string-to_string sign_fji h = refl
from_string-to_string sign_fl h = refl
from_string-to_string sign_fo h = refl
from_string-to_string sign_g h = refl
from_string-to_string sign_gb h = refl
from_string-to_string sign_gba h = refl
from_string-to_string sign_gbg h = refl
from_string-to_string sign_gbj h = refl
from_string-to_string sign_gbm h = refl
from_string-to_string sign_gbz h = refl
from_string-to_string sign_gca h = refl
from_string-to_string sign_ge h = refl
from_string-to_string sign_gh h = refl
from_string-to_string sign_gr h = refl
from_string-to_string sign_guy h = refl
from_string-to_string sign_h h = refl
from_string-to_string sign_hkj h = refl
from_string-to_string sign_hr h = refl
from_string-to_string sign_i h = refl
from_string-to_string sign_il h = refl
from_string-to_string sign_ind h = refl
from_string-to_string sign_ir h = refl
from_string-to_string sign_irl h = refl
from_string-to_string sign_irq h = refl
from_string-to_string sign_is h = refl
from_string-to_string sign_j h = refl
from_string-to_string sign_ja h = refl
from_string-to_string sign_k h = refl
from_string-to_string sign_kg h = refl
from_string-to_string sign_kwt h = refl
from_string-to_string sign_kz h = refl
from_string-to_string sign_l h = refl
from_string-to_string sign_lao h = refl
from_string-to_string sign_lar h = refl
from_string-to_string sign_lb h = refl
from_string-to_string sign_ls h = refl
from_string-to_string sign_lt h = refl
from_string-to_string sign_lv h = refl
from_string-to_string sign_m h = refl
from_string-to_string sign_ma h = refl
from_string-to_string sign_mal h = refl
from_string-to_string sign_mc h = refl
from_string-to_string sign_md h = refl
from_string-to_string sign_mex h = refl
from_string-to_string sign_mgl h = refl
from_string-to_string sign_mk h = refl
from_string-to_string sign_mne h = refl
from_string-to_string sign_moc h = refl
from_string-to_string sign_ms h = refl
from_string-to_string sign_mw h = refl
from_string-to_string sign_n h = refl
from_string-to_string sign_na h = refl
from_string-to_string sign_nam h = refl
from_string-to_string sign_nau h = refl
from_string-to_string sign_nep h = refl
from_string-to_string sign_nic h = refl
from_string-to_string sign_nl h = refl
from_string-to_string sign_nz h = refl
from_string-to_string sign_p h = refl
from_string-to_string sign_pa h = refl
from_string-to_string sign_pe h = refl
from_string-to_string sign_pk h = refl
from_string-to_string sign_pl h = refl
from_string-to_string sign_png h = refl
from_string-to_string sign_py h = refl
from_string-to_string sign_q h = refl
from_string-to_string sign_ra h = refl
from_string-to_string sign_rc h = refl
from_string-to_string sign_rca h = refl
from_string-to_string sign_rcb h = refl
from_string-to_string sign_rch h = refl
from_string-to_string sign_rg h = refl
from_string-to_string sign_rh h = refl
from_string-to_string sign_ri h = refl
from_string-to_string sign_rim h = refl
from_string-to_string sign_rl h = refl
from_string-to_string sign_rm h = refl
from_string-to_string sign_rmm h = refl
from_string-to_string sign_rn h = refl
from_string-to_string sign_rnr h = refl
from_string-to_string sign_ro h = refl
from_string-to_string sign_rok h = refl
from_string-to_string sign_rou h = refl
from_string-to_string sign_rp h = refl
from_string-to_string sign_rsm h = refl
from_string-to_string sign_ru h = refl
from_string-to_string sign_rus h = refl
from_string-to_string sign_rwa h = refl
from_string-to_string sign_s h = refl
from_string-to_string sign_sa h = refl
from_string-to_string sign_sd h = refl
from_string-to_string sign_sgp h = refl
from_string-to_string sign_sk h = refl
from_string-to_string sign_slo h = refl
from_string-to_string sign_sme h = refl
from_string-to_string sign_sn h = refl
from_string-to_string sign_so h = refl
from_string-to_string sign_srb h = refl
from_string-to_string sign_sud h = refl
from_string-to_string sign_sy h = refl
from_string-to_string sign_syr h = refl
from_string-to_string sign_t h = refl
from_string-to_string sign_tch h = refl
from_string-to_string sign_td h = refl
from_string-to_string sign_tg h = refl
from_string-to_string sign_tj h = refl
from_string-to_string sign_tm h = refl
from_string-to_string sign_tn h = refl
from_string-to_string sign_tr h = refl
from_string-to_string sign_tt h = refl
from_string-to_string sign_tza h = refl
from_string-to_string sign_ua h = refl
from_string-to_string sign_uae h = refl
from_string-to_string sign_usa h = refl
from_string-to_string sign_uz h = refl
from_string-to_string sign_v h = refl
from_string-to_string sign_vn h = refl
from_string-to_string sign_wag h = refl
from_string-to_string sign_wal h = refl
from_string-to_string sign_wan h = refl
from_string-to_string sign_wd h = refl
from_string-to_string sign_wg h = refl
from_string-to_string sign_wl h = refl
from_string-to_string sign_ws h = refl
from_string-to_string sign_wv h = refl
from_string-to_string sign_yar h = refl
from_string-to_string sign_yv h = refl
from_string-to_string sign_za h = refl
from_string-to_string sign_zre h = refl
from_string-to_string sign_zw h = refl
