-- ===== src/Namespaces/UnDistinguishingSign/Parse.antt =====
-- The parser of src/definitions/namespaces/org_iso_18013_5_1/un_distinguishing_sign.rs.
use isomdl.Prelude.{[], ◌∷◌, Option, none, some}
use isomdl.Prelude.Text.{Text, codes}
use isomdl.Namespaces.Arms.{Arms, first_arm}
use isomdl.Namespaces.UnDistinguishingSign.{
  UnDistinguishingSign, none_applicable, sign_a, sign_afg, sign_al, sign_am, sign_and, sign_aus,
  sign_az, sign_b, sign_bd, sign_bds, sign_bf, sign_bg, sign_bh, sign_bih, sign_bol, sign_br,
  sign_brn, sign_bru, sign_bs, sign_bur, sign_bvi, sign_bw, sign_by, sign_cam, sign_cdn, sign_ch,
  sign_ci, sign_cl, sign_co, sign_cr, sign_cu, sign_cy, sign_cz, sign_d, sign_dk, sign_dom, sign_dy,
  sign_dz, sign_e, sign_eak, sign_eat, sign_eau, sign_eaz, sign_ec, sign_er, sign_es, sign_est,
  sign_et, sign_eth, sign_f, sign_fin, sign_fji, sign_fl, sign_fo, sign_g, sign_gb, sign_gba,
  sign_gbg, sign_gbj, sign_gbm, sign_gbz, sign_gca, sign_ge, sign_gh, sign_gr, sign_guy, sign_h,
  sign_hkj, sign_hr, sign_i, sign_il, sign_ind, sign_ir, sign_irl, sign_irq, sign_is, sign_j,
  sign_ja, sign_k, sign_kg, sign_kwt, sign_kz, sign_l, sign_lao, sign_lar, sign_lb, sign_ls,
  sign_lt, sign_lv, sign_m, sign_ma, sign_mal, sign_mc, sign_md, sign_mex, sign_mgl, sign_mk,
  sign_mne, sign_moc, sign_ms, sign_mw, sign_n, sign_na, sign_nam, sign_nau, sign_nep, sign_nic,
  sign_nl, sign_nz, sign_p, sign_pa, sign_pe, sign_pk, sign_pl, sign_png, sign_py, sign_q, sign_ra,
  sign_rc, sign_rca, sign_rcb, sign_rch, sign_rg, sign_rh, sign_ri, sign_rim, sign_rl, sign_rm,
  sign_rmm, sign_rn, sign_rnr, sign_ro, sign_rok, sign_rou, sign_rp, sign_rsm, sign_ru, sign_rus,
  sign_rwa, sign_s, sign_sa, sign_sd, sign_sgp, sign_sk, sign_slo, sign_sme, sign_sn, sign_so,
  sign_srb, sign_sud, sign_sy, sign_syr, sign_t, sign_tch, sign_td, sign_tg, sign_tj, sign_tm,
  sign_tn, sign_tr, sign_tt, sign_tza, sign_ua, sign_uae, sign_usa, sign_uz, sign_v, sign_vn,
  sign_wag, sign_wal, sign_wan, sign_wd, sign_wg, sign_wl, sign_ws, sign_wv, sign_yar, sign_yv,
  sign_za, sign_zre, sign_zw,
}

abbrev pub or_none_applicable : Option UnDistinguishingSign → Text → UnDistinguishingSign
or_none_applicable (some a) s = a
or_none_applicable none s = none_applicable s

-- the arms of the `match`, in order
unfoldable pub arms : Arms UnDistinguishingSign
arms =
    (codes "A", sign_a)
    ∷ (codes "AFG", sign_afg)
    ∷ (codes "AL", sign_al)
    ∷ (codes "AM", sign_am)
    ∷ (codes "AND", sign_and)
    ∷ (codes "AUS", sign_aus)
    ∷ (codes "AZ", sign_az)
    ∷ (codes "B", sign_b)
    ∷ (codes "BD", sign_bd)
    ∷ (codes "BDS", sign_bds)
    ∷ (codes "BF", sign_bf)
    ∷ (codes "BG", sign_bg)
    ∷ (codes "BH", sign_bh)
    ∷ (codes "BIH", sign_bih)
    ∷ (codes "BOL", sign_bol)
    ∷ (codes "BR", sign_br)
    ∷ (codes "BRN", sign_brn)
    ∷ (codes "BRU", sign_bru)
    ∷ (codes "BS", sign_bs)
    ∷ (codes "BUR", sign_bur)
    ∷ (codes "BVI", sign_bvi)
    ∷ (codes "BW", sign_bw)
    ∷ (codes "BY", sign_by)
    ∷ (codes "CAM", sign_cam)
    ∷ (codes "CDN", sign_cdn)
    ∷ (codes "CH", sign_ch)
    ∷ (codes "CI", sign_ci)
    ∷ (codes "CL", sign_cl)
    ∷ (codes "CO", sign_co)
    ∷ (codes "CR", sign_cr)
    ∷ (codes "CU", sign_cu)
    ∷ (codes "CY", sign_cy)
    ∷ (codes "CZ", sign_cz)
    ∷ (codes "D", sign_d)
    ∷ (codes "DK", sign_dk)
    ∷ (codes "DOM", sign_dom)
    ∷ (codes "DY", sign_dy)
    ∷ (codes "DZ", sign_dz)
    ∷ (codes "E", sign_e)
    ∷ (codes "EAK", sign_eak)
    ∷ (codes "EAT", sign_eat)
    ∷ (codes "EAU", sign_eau)
    ∷ (codes "EAZ", sign_eaz)
    ∷ (codes "EC", sign_ec)
    ∷ (codes "ER", sign_er)
    ∷ (codes "ES", sign_es)
    ∷ (codes "EST", sign_est)
    ∷ (codes "ET", sign_et)
    ∷ (codes "ETH", sign_eth)
    ∷ (codes "F", sign_f)
    ∷ (codes "FIN", sign_fin)
    ∷ (codes "FJI", sign_fji)
    ∷ (codes "FL", sign_fl)
    ∷ (codes "FO", sign_fo)
    ∷ (codes "G", sign_g)
    ∷ (codes "GB", sign_gb)
    ∷ (codes "GBA", sign_gba)
    ∷ (codes "GBG", sign_gbg)
    ∷ (codes "GBJ", sign_gbj)
    ∷ (codes "GBM", sign_gbm)
    ∷ (codes "GBZ", sign_gbz)
    ∷ (codes "GCA", sign_gca)
    ∷ (codes "GE", sign_ge)
    ∷ (codes "GH", sign_gh)
    ∷ (codes "GR", sign_gr)
    ∷ (codes "GUY", sign_guy)
    ∷ (codes "H", sign_h)
    ∷ (codes "HKJ", sign_hkj)
    ∷ (codes "HR", sign_hr)
    ∷ (codes "I", sign_i)
    ∷ (codes "IL", sign_il)
    ∷ (codes "IND", sign_ind)
    ∷ (codes "IR", sign_ir)
    ∷ (codes "IRL", sign_irl)
    ∷ (codes "IRQ", sign_irq)
    ∷ (codes "IS", sign_is)
    ∷ (codes "J", sign_j)
    ∷ (codes "JA", sign_ja)
    ∷ (codes "K", sign_k)
    ∷ (codes "KG", sign_kg)
    ∷ (codes "KWT", sign_kwt)
    ∷ (codes "KZ", sign_kz)
    ∷ (codes "L", sign_l)
    ∷ (codes "LAO", sign_lao)
    ∷ (codes "LAR", sign_lar)
    ∷ (codes "LB", sign_lb)
    ∷ (codes "LS", sign_ls)
    ∷ (codes "LT", sign_lt)
    ∷ (codes "LV", sign_lv)
    ∷ (codes "M", sign_m)
    ∷ (codes "MA", sign_ma)
    ∷ (codes "MAL", sign_mal)
    ∷ (codes "MC", sign_mc)
    ∷ (codes "MD", sign_md)
    ∷ (codes "MEX", sign_mex)
    ∷ (codes "MGL", sign_mgl)
    ∷ (codes "MK", sign_mk)
    ∷ (codes "MNE", sign_mne)
    ∷ (codes "MOC", sign_moc)
    ∷ (codes "MS", sign_ms)
    ∷ (codes "MW", sign_mw)
    ∷ (codes "N", sign_n)
    ∷ (codes "NA", sign_na)
    ∷ (codes "NAM", sign_nam)
    ∷ (codes "NAU", sign_nau)
    ∷ (codes "NEP", sign_nep)
    ∷ (codes "NIC", sign_nic)
    ∷ (codes "NL", sign_nl)
    ∷ (codes "NZ", sign_nz)
    ∷ (codes "P", sign_p)
    ∷ (codes "PA", sign_pa)
    ∷ (codes "PE", sign_pe)
    ∷ (codes "PK", sign_pk)
    ∷ (codes "PL", sign_pl)
    ∷ (codes "PNG", sign_png)
    ∷ (codes "PY", sign_py)
    ∷ (codes "Q", sign_q)
    ∷ (codes "RA", sign_ra)
    ∷ (codes "RC", sign_rc)
    ∷ (codes "RCA", sign_rca)
    ∷ (codes "RCB", sign_rcb)
    ∷ (codes "RCH", sign_rch)
    ∷ (codes "RG", sign_rg)
    ∷ (codes "RH", sign_rh)
    ∷ (codes "RI", sign_ri)
    ∷ (codes "RIM", sign_rim)
    ∷ (codes "RL", sign_rl)
    ∷ (codes "RM", sign_rm)
    ∷ (codes "RMM", sign_rmm)
    ∷ (codes "RN", sign_rn)
    ∷ (codes "RNR", sign_rnr)
    ∷ (codes "RO", sign_ro)
    ∷ (codes "ROK", sign_rok)
    ∷ (codes "ROU", sign_rou)
    ∷ (codes "RP", sign_rp)
    ∷ (codes "RSM", sign_rsm)
    ∷ (codes "RU", sign_ru)
    ∷ (codes "RUS", sign_rus)
    ∷ (codes "RWA", sign_rwa)
    ∷ (codes "S", sign_s)
    ∷ (codes "SA", sign_sa)
    ∷ (codes "SD", sign_sd)
    ∷ (codes "SGP", sign_sgp)
    ∷ (codes "SK", sign_sk)
    ∷ (codes "SLO", sign_slo)
    ∷ (codes "SME", sign_sme)
    ∷ (codes "SN", sign_sn)
    ∷ (codes "SO", sign_so)
    ∷ (codes "SRB", sign_srb)
    ∷ (codes "SUD", sign_sud)
    ∷ (codes "SY", sign_sy)
    ∷ (codes "SYR", sign_syr)
    ∷ (codes "T", sign_t)
    ∷ (codes "TCH", sign_tch)
    ∷ (codes "TD", sign_td)
    ∷ (codes "TG", sign_tg)
    ∷ (codes "TJ", sign_tj)
    ∷ (codes "TM", sign_tm)
    ∷ (codes "TN", sign_tn)
    ∷ (codes "TR", sign_tr)
    ∷ (codes "TT", sign_tt)
    ∷ (codes "TZA", sign_tza)
    ∷ (codes "UA", sign_ua)
    ∷ (codes "UAE", sign_uae)
    ∷ (codes "USA", sign_usa)
    ∷ (codes "UZ", sign_uz)
    ∷ (codes "V", sign_v)
    ∷ (codes "VN", sign_vn)
    ∷ (codes "WAG", sign_wag)
    ∷ (codes "WAL", sign_wal)
    ∷ (codes "WAN", sign_wan)
    ∷ (codes "WD", sign_wd)
    ∷ (codes "WG", sign_wg)
    ∷ (codes "WL", sign_wl)
    ∷ (codes "WS", sign_ws)
    ∷ (codes "WV", sign_wv)
    ∷ (codes "YAR", sign_yar)
    ∷ (codes "YV", sign_yv)
    ∷ (codes "ZA", sign_za)
    ∷ (codes "ZRE", sign_zre)
    ∷ (codes "ZW", sign_zw)
    ∷ []

unfoldable pub from_string : Text → UnDistinguishingSign
unfolding arms first_arm
from_string s = or_none_applicable (first_arm arms s) s
