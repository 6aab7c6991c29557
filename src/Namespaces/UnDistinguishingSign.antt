-- ===== src/Namespaces/UnDistinguishingSign.antt =====
-- `UNDistinguishingSign` of src/definitions/namespaces/org_iso_18013_5_1/un_distinguishing_sign.rs and its text.
pub mod Parse
pub mod RoundTrip
pub mod Json
use isomdl.Prelude.Text.{Text, codes}

pub data UnDistinguishingSign : Type 0 where
  sign_a sign_afg sign_al sign_am sign_and sign_aus sign_az sign_b sign_bd : UnDistinguishingSign
  sign_bds sign_bf sign_bg sign_bh sign_bih sign_bol sign_br sign_brn sign_bru :
      UnDistinguishingSign
  sign_bs sign_bur sign_bvi sign_bw sign_by sign_cam sign_cdn sign_ch sign_ci : UnDistinguishingSign
  sign_cl sign_co sign_cr sign_cu sign_cy sign_cz sign_d sign_dk sign_dom : UnDistinguishingSign
  sign_dy sign_dz sign_e sign_eak sign_eat sign_eau sign_eaz sign_ec sign_er : UnDistinguishingSign
  sign_es sign_est sign_et sign_eth sign_f sign_fin sign_fji sign_fl sign_fo : UnDistinguishingSign
  sign_g sign_gb sign_gba sign_gbg sign_gbj sign_gbm sign_gbz sign_gca sign_ge :
      UnDistinguishingSign
  sign_gh sign_gr sign_guy sign_h sign_hkj sign_hr sign_i sign_il sign_ind : UnDistinguishingSign
  sign_ir sign_irl sign_irq sign_is sign_j sign_ja sign_k sign_kg sign_kwt : UnDistinguishingSign
  sign_kz sign_l sign_lao sign_lar sign_lb sign_ls sign_lt sign_lv sign_m : UnDistinguishingSign
  sign_ma sign_mal sign_mc sign_md sign_mex sign_mgl sign_mk sign_mne sign_moc :
      UnDistinguishingSign
  sign_ms sign_mw sign_n sign_na sign_nam sign_nau sign_nep sign_nic sign_nl : UnDistinguishingSign
  sign_nz sign_p sign_pa sign_pe sign_pk sign_pl sign_png sign_py sign_q : UnDistinguishingSign
  sign_ra sign_rc sign_rca sign_rcb sign_rch sign_rg sign_rh sign_ri sign_rim : UnDistinguishingSign
  sign_rl sign_rm sign_rmm sign_rn sign_rnr sign_ro sign_rok sign_rou sign_rp : UnDistinguishingSign
  sign_rsm sign_ru sign_rus sign_rwa sign_s sign_sa sign_sd sign_sgp sign_sk : UnDistinguishingSign
  sign_slo sign_sme sign_sn sign_so sign_srb sign_sud sign_sy sign_syr sign_t : UnDistinguishingSign
  sign_tch sign_td sign_tg sign_tj sign_tm sign_tn sign_tr sign_tt sign_tza : UnDistinguishingSign
  sign_ua sign_uae sign_usa sign_uz sign_v sign_vn sign_wag sign_wal sign_wan : UnDistinguishingSign
  sign_wd sign_wg sign_wl sign_ws sign_wv sign_yar sign_yv sign_za sign_zre : UnDistinguishingSign
  sign_zw : UnDistinguishingSign
  none_applicable : Text → UnDistinguishingSign

unfoldable pub to_string : UnDistinguishingSign → Text
to_string sign_a = codes "A"
to_string sign_afg = codes "AFG"
to_string sign_al = codes "AL"
to_string sign_am = codes "AM"
to_string sign_and = codes "AND"
to_string sign_aus = codes "AUS"
to_string sign_az = codes "AZ"
to_string sign_b = codes "B"
to_string sign_bd = codes "BD"
to_string sign_bds = codes "BDS"
to_string sign_bf = codes "BF"
to_string sign_bg = codes "BG"
to_string sign_bh = codes "BH"
to_string sign_bih = codes "BIH"
to_string sign_bol = codes "BOL"
to_string sign_br = codes "BR"
to_string sign_brn = codes "BRN"
to_string sign_bru = codes "BRU"
to_string sign_bs = codes "BS"
to_string sign_bur = codes "BUR"
to_string sign_bvi = codes "BVI"
to_string sign_bw = codes "BW"
to_string sign_by = codes "BY"
to_string sign_cam = codes "CAM"
to_string sign_cdn = codes "CDN"
to_string sign_ch = codes "CH"
to_string sign_ci = codes "CI"
to_string sign_cl = codes "CL"
to_string sign_co = codes "CO"
to_string sign_cr = codes "CR"
to_string sign_cu = codes "CU"
to_string sign_cy = codes "CY"
to_string sign_cz = codes "CZ"
to_string sign_d = codes "D"
to_string sign_dk = codes "DK"
to_string sign_dom = codes "DOM"
to_string sign_dy = codes "DY"
to_string sign_dz = codes "DZ"
to_string sign_e = codes "E"
to_string sign_eak = codes "EAK"
to_string sign_eat = codes "EAT"
to_string sign_eau = codes "EAU"
to_string sign_eaz = codes "EAZ"
to_string sign_ec = codes "EC"
to_string sign_er = codes "ER"
to_string sign_es = codes "ES"
to_string sign_est = codes "EST"
to_string sign_et = codes "ET"
to_string sign_eth = codes "ETH"
to_string sign_f = codes "F"
to_string sign_fin = codes "FIN"
to_string sign_fji = codes "FJI"
to_string sign_fl = codes "FL"
to_string sign_fo = codes "FO"
to_string sign_g = codes "G"
to_string sign_gb = codes "GB"
to_string sign_gba = codes "GBA"
to_string sign_gbg = codes "GBG"
to_string sign_gbj = codes "GBJ"
to_string sign_gbm = codes "GBM"
to_string sign_gbz = codes "GBZ"
to_string sign_gca = codes "GCA"
to_string sign_ge = codes "GE"
to_string sign_gh = codes "GH"
to_string sign_gr = codes "GR"
to_string sign_guy = codes "GUY"
to_string sign_h = codes "H"
to_string sign_hkj = codes "HKJ"
to_string sign_hr = codes "HR"
to_string sign_i = codes "I"
to_string sign_il = codes "IL"
to_string sign_ind = codes "IND"
to_string sign_ir = codes "IR"
to_string sign_irl = codes "IRL"
to_string sign_irq = codes "IRQ"
to_string sign_is = codes "IS"
to_string sign_j = codes "J"
to_string sign_ja = codes "JA"
to_string sign_k = codes "K"
to_string sign_kg = codes "KG"
to_string sign_kwt = codes "KWT"
to_string sign_kz = codes "KZ"
to_string sign_l = codes "L"
to_string sign_lao = codes "LAO"
to_string sign_lar = codes "LAR"
to_string sign_lb = codes "LB"
to_string sign_ls = codes "LS"
to_string sign_lt = codes "LT"
to_string sign_lv = codes "LV"
to_string sign_m = codes "M"
to_string sign_ma = codes "MA"
to_string sign_mal = codes "MAL"
to_string sign_mc = codes "MC"
to_string sign_md = codes "MD"
to_string sign_mex = codes "MEX"
to_string sign_mgl = codes "MGL"
to_string sign_mk = codes "MK"
to_string sign_mne = codes "MNE"
to_string sign_moc = codes "MOC"
to_string sign_ms = codes "MS"
to_string sign_mw = codes "MW"
to_string sign_n = codes "N"
to_string sign_na = codes "NA"
to_string sign_nam = codes "NAM"
to_string sign_nau = codes "NAU"
to_string sign_nep = codes "NEP"
to_string sign_nic = codes "NIC"
to_string sign_nl = codes "NL"
to_string sign_nz = codes "NZ"
to_string sign_p = codes "P"
to_string sign_pa = codes "PA"
to_string sign_pe = codes "PE"
to_string sign_pk = codes "PK"
to_string sign_pl = codes "PL"
to_string sign_png = codes "PNG"
to_string sign_py = codes "PY"
to_string sign_q = codes "Q"
to_string sign_ra = codes "RA"
to_string sign_rc = codes "RC"
to_string sign_rca = codes "RCA"
to_string sign_rcb = codes "RCB"
to_string sign_rch = codes "RCH"
to_string sign_rg = codes "RG"
to_string sign_rh = codes "RH"
to_string sign_ri = codes "RI"
to_string sign_rim = codes "RIM"
to_string sign_rl = codes "RL"
to_string sign_rm = codes "RM"
to_string sign_rmm = codes "RMM"
to_string sign_rn = codes "RN"
to_string sign_rnr = codes "RNR"
to_string sign_ro = codes "RO"
to_string sign_rok = codes "ROK"
to_string sign_rou = codes "ROU"
to_string sign_rp = codes "RP"
to_string sign_rsm = codes "RSM"
to_string sign_ru = codes "RU"
to_string sign_rus = codes "RUS"
to_string sign_rwa = codes "RWA"
to_string sign_s = codes "S"
to_string sign_sa = codes "SA"
to_string sign_sd = codes "SD"
to_string sign_sgp = codes "SGP"
to_string sign_sk = codes "SK"
to_string sign_slo = codes "SLO"
to_string sign_sme = codes "SME"
to_string sign_sn = codes "SN"
to_string sign_so = codes "SO"
to_string sign_srb = codes "SRB"
to_string sign_sud = codes "SUD"
to_string sign_sy = codes "SY"
to_string sign_syr = codes "SYR"
to_string sign_t = codes "T"
to_string sign_tch = codes "TCH"
to_string sign_td = codes "TD"
to_string sign_tg = codes "TG"
to_string sign_tj = codes "TJ"
to_string sign_tm = codes "TM"
to_string sign_tn = codes "TN"
to_string sign_tr = codes "TR"
to_string sign_tt = codes "TT"
to_string sign_tza = codes "TZA"
to_string sign_ua = codes "UA"
to_string sign_uae = codes "UAE"
to_string sign_usa = codes "USA"
to_string sign_uz = codes "UZ"
to_string sign_v = codes "V"
to_string sign_vn = codes "VN"
to_string sign_wag = codes "WAG"
to_string sign_wal = codes "WAL"
to_string sign_wan = codes "WAN"
to_string sign_wd = codes "WD"
to_string sign_wg = codes "WG"
to_string sign_wl = codes "WL"
to_string sign_ws = codes "WS"
to_string sign_wv = codes "WV"
to_string sign_yar = codes "YAR"
to_string sign_yv = codes "YV"
to_string sign_za = codes "ZA"
to_string sign_zre = codes "ZRE"
to_string sign_zw = codes "ZW"
to_string (none_applicable s) = s
