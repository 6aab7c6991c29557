-- ===== src/Namespaces/Alpha2.antt =====
-- `Alpha2` of src/definitions/namespaces/org_iso_18013_5_1/alpha2.rs and its text.
pub mod Parse
pub mod RoundTrip
pub mod Json
use isomdl.Prelude.Text.{Text, codes}

pub data Alpha2 : Type 0 where
  code_ad code_ae code_af code_ag code_ai code_al code_am code_ao code_aq : Alpha2
  code_ar code_as code_at code_au code_aw code_ax code_az code_ba code_bb : Alpha2
  code_bd code_be code_bf code_bg code_bh code_bi code_bj code_bl code_bm : Alpha2
  code_bn code_bo code_bq code_br code_bs code_bt code_bv code_bw code_by : Alpha2
  code_bz code_ca code_cc code_cd code_cf code_cg code_ch code_ci code_ck : Alpha2
  code_cl code_cm code_cn code_co code_cr code_cu code_cv code_cw code_cx : Alpha2
  code_cy code_cz code_de code_dj code_dk code_dm code_do code_dz code_ec : Alpha2
  code_ee code_eg code_eh code_er code_es code_et code_fi code_fj code_fk : Alpha2
  code_fm code_fo code_fr code_ga code_gb code_gd code_ge code_gf code_gg : Alpha2
  code_gh code_gi code_gl code_gm code_gn code_gp code_gq code_gr code_gs : Alpha2
  code_gt code_gu code_gw code_gy code_hk code_hm code_hn code_hr code_ht : Alpha2
  code_hu code_id code_ie code_il code_im code_in code_io code_iq code_ir : Alpha2
  code_is code_it code_je code_jm code_jo code_jp code_ke code_kg code_kh : Alpha2
  code_ki code_km code_kn code_kp code_kr code_kw code_ky code_kz code_la : Alpha2
  code_lb code_lc code_li code_lk code_lr code_ls code_lt code_lu code_lv : Alpha2
  code_ly code_ma code_mc code_md code_me code_mf code_mg code_mh code_mk : Alpha2
  code_ml code_mm code_mn code_mo code_mp code_mq code_mr code_ms code_mt : Alpha2
  code_mu code_mv code_mw code_mx code_my code_mz code_na code_nc code_ne : Alpha2
  code_nf code_ng code_ni code_nl code_no code_np code_nr code_nu code_nz : Alpha2
  code_om code_pa code_pe code_pf code_pg code_ph code_pk code_pl code_pm : Alpha2
  code_pn code_pr code_ps code_pt code_pw code_py code_qa code_re code_ro : Alpha2
  code_rs code_ru code_rw code_sa code_sb code_sc code_sd code_se code_sg : Alpha2
  code_sh code_si code_sj code_sk code_sl code_sm code_sn code_so code_sr : Alpha2
  code_ss code_st code_sv code_sx code_sy code_sz code_tc code_td code_tf : Alpha2
  code_tg code_th code_tj code_tk code_tl code_tm code_tn code_to code_tr : Alpha2
  code_tt code_tv code_tw code_tz code_ua code_ug code_um code_us code_uy : Alpha2
  code_uz code_va code_vc code_ve code_vg code_vi code_vn code_vu code_wf : Alpha2
  code_ws code_ye code_yt code_za code_zm code_zw : Alpha2

unfoldable pub as_str : Alpha2 → Text
as_str code_ad = codes "AD"
as_str code_ae = codes "AE"
as_str code_af = codes "AF"
as_str code_ag = codes "AG"
as_str code_ai = codes "AI"
as_str code_al = codes "AL"
as_str code_am = codes "AM"
as_str code_ao = codes "AO"
as_str code_aq = codes "AQ"
as_str code_ar = codes "AR"
as_str code_as = codes "AS"
as_str code_at = codes "AT"
as_str code_au = codes "AU"
as_str code_aw = codes "AW"
as_str code_ax = codes "AX"
as_str code_az = codes "AZ"
as_str code_ba = codes "BA"
as_str code_bb = codes "BB"
as_str code_bd = codes "BD"
as_str code_be = codes "BE"
as_str code_bf = codes "BF"
as_str code_bg = codes "BG"
as_str code_bh = codes "BH"
as_str code_bi = codes "BI"
as_str code_bj = codes "BJ"
as_str code_bl = codes "BL"
as_str code_bm = codes "BM"
as_str code_bn = codes "BN"
as_str code_bo = codes "BO"
as_str code_bq = codes "BQ"
as_str code_br = codes "BR"
as_str code_bs = codes "BS"
as_str code_bt = codes "BT"
as_str code_bv = codes "BV"
as_str code_bw = codes "BW"
as_str code_by = codes "BY"
as_str code_bz = codes "BZ"
as_str code_ca = codes "CA"
as_str code_cc = codes "CC"
as_str code_cd = codes "CD"
as_str code_cf = codes "CF"
as_str code_cg = codes "CG"
as_str code_ch = codes "CH"
as_str code_ci = codes "CI"
as_str code_ck = codes "CK"
as_str code_cl = codes "CL"
as_str code_cm = codes "CM"
as_str code_cn = codes "CN"
as_str code_co = codes "CO"
as_str code_cr = codes "CR"
as_str code_cu = codes "CU"
as_str code_cv = codes "CV"
as_str code_cw = codes "CW"
as_str code_cx = codes "CX"
as_str code_cy = codes "CY"
as_str code_cz = codes "CZ"
as_str code_de = codes "DE"
as_str code_dj = codes "DJ"
as_str code_dk = codes "DK"
as_str code_dm = codes "DM"
as_str code_do = codes "DO"
as_str code_dz = codes "DZ"
as_str code_ec = codes "EC"
as_str code_ee = codes "EE"
as_str code_eg = codes "EG"
as_str code_eh = codes "EH"
as_str code_er = codes "ER"
as_str code_es = codes "ES"
as_str code_et = codes "ET"
as_str code_fi = codes "FI"
as_str code_fj = codes "FJ"
as_str code_fk = codes "FK"
as_str code_fm = codes "FM"
as_str code_fo = codes "FO"
as_str code_fr = codes "FR"
as_str code_ga = codes "GA"
as_str code_gb = codes "GB"
as_str code_gd = codes "GD"
as_str code_ge = codes "GE"
as_str code_gf = codes "GF"
as_str code_gg = codes "GG"
as_str code_gh = codes "GH"
as_str code_gi = codes "GI"
as_str code_gl = codes "GL"
as_str code_gm = codes "GM"
as_str code_gn = codes "GN"
as_str code_gp = codes "GP"
as_str code_gq = codes "GQ"
as_str code_gr = codes "GR"
as_str code_gs = codes "GS"
as_str code_gt = codes "GT"
as_str code_gu = codes "GU"
as_str code_gw = codes "GW"
as_str code_gy = codes "GY"
as_str code_hk = codes "HK"
as_str code_hm = codes "HM"
as_str code_hn = codes "HN"
as_str code_hr = codes "HR"
as_str code_ht = codes "HT"
as_str code_hu = codes "HU"
as_str code_id = codes "ID"
as_str code_ie = codes "IE"
as_str code_il = codes "IL"
as_str code_im = codes "IM"
as_str code_in = codes "IN"
as_str code_io = codes "IO"
as_str code_iq = codes "IQ"
as_str code_ir = codes "IR"
as_str code_is = codes "IS"
as_str code_it = codes "IT"
as_str code_je = codes "JE"
as_str code_jm = codes "JM"
as_str code_jo = codes "JO"
as_str code_jp = codes "JP"
as_str code_ke = codes "KE"
as_str code_kg = codes "KG"
as_str code_kh = codes "KH"
as_str code_ki = codes "KI"
as_str code_km = codes "KM"
as_str code_kn = codes "KN"
as_str code_kp = codes "KP"
as_str code_kr = codes "KR"
as_str code_kw = codes "KW"
as_str code_ky = codes "KY"
as_str code_kz = codes "KZ"
as_str code_la = codes "LA"
as_str code_lb = codes "LB"
as_str code_lc = codes "LC"
as_str code_li = codes "LI"
as_str code_lk = codes "LK"
as_str code_lr = codes "LR"
as_str code_ls = codes "LS"
as_str code_lt = codes "LT"
as_str code_lu = codes "LU"
as_str code_lv = codes "LV"
as_str code_ly = codes "LY"
as_str code_ma = codes "MA"
as_str code_mc = codes "MC"
as_str code_md = codes "MD"
as_str code_me = codes "ME"
as_str code_mf = codes "MF"
as_str code_mg = codes "MG"
as_str code_mh = codes "MH"
as_str code_mk = codes "MK"
as_str code_ml = codes "ML"
as_str code_mm = codes "MM"
as_str code_mn = codes "MN"
as_str code_mo = codes "MO"
as_str code_mp = codes "MP"
as_str code_mq = codes "MQ"
as_str code_mr = codes "MR"
as_str code_ms = codes "MS"
as_str code_mt = codes "MT"
as_str code_mu = codes "MU"
as_str code_mv = codes "MV"
as_str code_mw = codes "MW"
as_str code_mx = codes "MX"
as_str code_my = codes "MY"
as_str code_mz = codes "MZ"
as_str code_na = codes "NA"
as_str code_nc = codes "NC"
as_str code_ne = codes "NE"
as_str code_nf = codes "NF"
as_str code_ng = codes "NG"
as_str code_ni = codes "NI"
as_str code_nl = codes "NL"
as_str code_no = codes "NO"
as_str code_np = codes "NP"
as_str code_nr = codes "NR"
as_str code_nu = codes "NU"
as_str code_nz = codes "NZ"
as_str code_om = codes "OM"
as_str code_pa = codes "PA"
as_str code_pe = codes "PE"
as_str code_pf = codes "PF"
as_str code_pg = codes "PG"
as_str code_ph = codes "PH"
as_str code_pk = codes "PK"
as_str code_pl = codes "PL"
as_str code_pm = codes "PM"
as_str code_pn = codes "PN"
as_str code_pr = codes "PR"
as_str code_ps = codes "PS"
as_str code_pt = codes "PT"
as_str code_pw = codes "PW"
as_str code_py = codes "PY"
as_str code_qa = codes "QA"
as_str code_re = codes "RE"
as_str code_ro = codes "RO"
as_str code_rs = codes "RS"
as_str code_ru = codes "RU"
as_str code_rw = codes "RW"
as_str code_sa = codes "SA"
as_str code_sb = codes "SB"
as_str code_sc = codes "SC"
as_str code_sd = codes "SD"
as_str code_se = codes "SE"
as_str code_sg = codes "SG"
as_str code_sh = codes "SH"
as_str code_si = codes "SI"
as_str code_sj = codes "SJ"
as_str code_sk = codes "SK"
as_str code_sl = codes "SL"
as_str code_sm = codes "SM"
as_str code_sn = codes "SN"
as_str code_so = codes "SO"
as_str code_sr = codes "SR"
as_str code_ss = codes "SS"
as_str code_st = codes "ST"
as_str code_sv = codes "SV"
as_str code_sx = codes "SX"
as_str code_sy = codes "SY"
as_str code_sz = codes "SZ"
as_str code_tc = codes "TC"
as_str code_td = codes "TD"
as_str code_tf = codes "TF"
as_str code_tg = codes "TG"
as_str code_th = codes "TH"
as_str code_tj = codes "TJ"
as_str code_tk = codes "TK"
as_str code_tl = codes "TL"
as_str code_tm = codes "TM"
as_str code_tn = codes "TN"
as_str code_to = codes "TO"
as_str code_tr = codes "TR"
as_str code_tt = codes "TT"
as_str code_tv = codes "TV"
as_str code_tw = codes "TW"
as_str code_tz = codes "TZ"
as_str code_ua = codes "UA"
as_str code_ug = codes "UG"
as_str code_um = codes "UM"
as_str code_us = codes "US"
as_str code_uy = codes "UY"
as_str code_uz = codes "UZ"
as_str code_va = codes "VA"
as_str code_vc = codes "VC"
as_str code_ve = codes "VE"
as_str code_vg = codes "VG"
as_str code_vi = codes "VI"
as_str code_vn = codes "VN"
as_str code_vu = codes "VU"
as_str code_wf = codes "WF"
as_str code_ws = codes "WS"
as_str code_ye = codes "YE"
as_str code_yt = codes "YT"
as_str code_za = codes "ZA"
as_str code_zm = codes "ZM"
as_str code_zw = codes "ZW"
