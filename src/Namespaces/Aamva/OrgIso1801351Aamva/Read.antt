-- ===== src/Namespaces/Aamva/OrgIso1801351Aamva/Read.antt =====
-- When a JSON object is read as the `org.iso.18013.5.1.aamva` namespace
-- (src/definitions/namespaces/org_iso_18013_5_1_aamva/mod.rs).
use isomdl.Prelude.{◌≡◌, ◌↔◌, ap, ◌∙◌, ok, returns, arith}
use isomdl.Prelude.Text.{codes}
use isomdl.FromJson.{object, Fields, Object, entries, implement, safely, optional, string_from_json}
use isomdl.Derive.FromJson.{plain, from_object}
use isomdl.Derive.FromJson
use isomdl.Derive.FromJson.Exact.{Reads, from_object_exact}
use isomdl.Namespaces.FullDate.{Dates}
use isomdl.Namespaces.FullDate
use isomdl.Namespaces.Latin1
use isomdl.Namespaces.Aamva.DomesticDrivingPrivileges.{privileges_from_json}
use isomdl.Namespaces.Aamva.CountyCode
use isomdl.Namespaces.Aamva.DhsCompliance
use isomdl.Namespaces.Aamva.EdlIndicator
use isomdl.Namespaces.Aamva.NameSuffix
use isomdl.Namespaces.Aamva.NameTruncation
use isomdl.Namespaces.Aamva.Present
use isomdl.Namespaces.Aamva.RaceAndEthnicity
use isomdl.Namespaces.Aamva.Sex
use isomdl.Namespaces.Aamva.WeightRange
use isomdl.Namespaces.Aamva.OrgIso1801351Aamva.{
  OrgIso1801351Aamva, elements_fields, elements_from_json,
}

module _ (dates : Dates) where
  open dates use {Date}

  -- every element reads, and is the struct's
  pub record IsReadFrom (map : Object) (r : OrgIso1801351Aamva dates) : Type 0 where
    pub domestic_driving_privileges :
        plain (implement (privileges_from_json dates)) (codes "domestic_driving_privileges") map
        ≡ returns (ok r.domestic_driving_privileges)
    pub name_suffix :
        plain (optional (safely NameSuffix.from_json)) (codes "name_suffix") map
        ≡ returns (ok r.name_suffix)
    pub organ_donor :
        plain (optional (safely Present.from_json)) (codes "organ_donor") map
        ≡ returns (ok r.organ_donor)
    pub veteran :
        plain (optional (safely Present.from_json)) (codes "veteran") map ≡ returns (ok r.veteran)
    pub family_name_truncation :
        plain (safely NameTruncation.from_json) (codes "family_name_truncation") map
        ≡ returns (ok r.family_name_truncation)
    pub given_name_truncation :
        plain (safely NameTruncation.from_json) (codes "given_name_truncation") map
        ≡ returns (ok r.given_name_truncation)
    pub aka_family_name_v2 :
        plain (optional (safely Latin1.from_json)) (codes "aka_family_name.v2") map
        ≡ returns (ok r.aka_family_name_v2)
    pub aka_given_name_v2 :
        plain (optional (safely Latin1.from_json)) (codes "aka_given_name.v2") map
        ≡ returns (ok r.aka_given_name_v2)
    pub aka_suffix :
        plain (optional (safely NameSuffix.from_json)) (codes "aka_suffix") map
        ≡ returns (ok r.aka_suffix)
    pub weight_range :
        plain (optional (safely WeightRange.from_json)) (codes "weight_range") map
        ≡ returns (ok r.weight_range)
    pub race_ethnicity :
        plain (optional (safely RaceAndEthnicity.from_json)) (codes "race_ethnicity") map
        ≡ returns (ok r.race_ethnicity)
    pub edl_credential :
        plain (optional (safely EdlIndicator.from_json)) (codes "EDL_credential") map
        ≡ returns (ok r.edl_credential)
    pub sex : plain (safely Sex.from_json) (codes "sex") map ≡ returns (ok r.sex)
    pub dhs_compliance :
        plain (safely DhsCompliance.from_json) (codes "DHS_compliance") map
        ≡ returns (ok r.dhs_compliance)
    pub resident_county :
        plain (optional (safely CountyCode.from_json)) (codes "resident_county") map
        ≡ returns (ok r.resident_county)
    pub hazmat_endorsement_expiration_date :
        plain
          (optional (safely (FullDate.from_json dates)))
          (codes "hazmat_endorsement_expiration_date")
          map
        ≡ returns (ok r.hazmat_endorsement_expiration_date)
    pub cdl_indicator :
        plain (optional (safely Present.from_json)) (codes "CDL_indicator") map
        ≡ returns (ok r.cdl_indicator)
    pub dhs_compliance_text :
        plain (optional (safely string_from_json)) (codes "DHS_compliance_text") map
        ≡ returns (ok r.dhs_compliance_text)
    pub dhs_temporary_lawful_status :
        plain (optional (safely Present.from_json)) (codes "DHS_temporary_lawful_status") map
        ≡ returns (ok r.dhs_temporary_lawful_status)

  all_read :
      (map : Object) (r : OrgIso1801351Aamva dates)
      → Reads (elements_fields dates) map (λ x. x ≡ r)
      → IsReadFrom map r
  unfolding Reads elements_fields
  all_read map r h =
      let (x0, e0, h0) = h in
      let (x1, e1, h1) = h0 in
      let (x2, e2, h2) = h1 in
      let (x3, e3, h3) = h2 in
      let (x4, e4, h4) = h3 in
      let (x5, e5, h5) = h4 in
      let (x6, e6, h6) = h5 in
      let (x7, e7, h7) = h6 in
      let (x8, e8, h8) = h7 in
      let (x9, e9, h9) = h8 in
      let (x10, e10, h10) = h9 in
      let (x11, e11, h11) = h10 in
      let (x12, e12, h12) = h11 in
      let (x13, e13, h13) = h12 in
      let (x14, e14, h14) = h13 in
      let (x15, e15, h15) = h14 in
      let (x16, e16, h16) = h15 in
      let (x17, e17, h17) = h16 in
      let (x18, e18, h18) = h17 in
      record {
        domestic_driving_privileges =
            e0
            ∙ ap (λ (x : OrgIso1801351Aamva dates). returns (ok x.domestic_driving_privileges)) h18;
        name_suffix = e1 ∙ ap (λ (x : OrgIso1801351Aamva dates). returns (ok x.name_suffix)) h18;
        organ_donor = e2 ∙ ap (λ (x : OrgIso1801351Aamva dates). returns (ok x.organ_donor)) h18;
        veteran = e3 ∙ ap (λ (x : OrgIso1801351Aamva dates). returns (ok x.veteran)) h18;
        family_name_truncation =
            e4 ∙ ap (λ (x : OrgIso1801351Aamva dates). returns (ok x.family_name_truncation)) h18;
        given_name_truncation =
            e5 ∙ ap (λ (x : OrgIso1801351Aamva dates). returns (ok x.given_name_truncation)) h18;
        aka_family_name_v2 =
            e6 ∙ ap (λ (x : OrgIso1801351Aamva dates). returns (ok x.aka_family_name_v2)) h18;
        aka_given_name_v2 =
            e7 ∙ ap (λ (x : OrgIso1801351Aamva dates). returns (ok x.aka_given_name_v2)) h18;
        aka_suffix = e8 ∙ ap (λ (x : OrgIso1801351Aamva dates). returns (ok x.aka_suffix)) h18;
        weight_range = e9 ∙ ap (λ (x : OrgIso1801351Aamva dates). returns (ok x.weight_range)) h18;
        race_ethnicity =
            e10 ∙ ap (λ (x : OrgIso1801351Aamva dates). returns (ok x.race_ethnicity)) h18;
        edl_credential =
            e11 ∙ ap (λ (x : OrgIso1801351Aamva dates). returns (ok x.edl_credential)) h18;
        sex = e12 ∙ ap (λ (x : OrgIso1801351Aamva dates). returns (ok x.sex)) h18;
        dhs_compliance =
            e13 ∙ ap (λ (x : OrgIso1801351Aamva dates). returns (ok x.dhs_compliance)) h18;
        resident_county =
            e14 ∙ ap (λ (x : OrgIso1801351Aamva dates). returns (ok x.resident_county)) h18;
        hazmat_endorsement_expiration_date =
            e15
            ∙ ap
                (λ (x : OrgIso1801351Aamva dates).
                  returns (ok x.hazmat_endorsement_expiration_date))
                h18;
        cdl_indicator =
            e16 ∙ ap (λ (x : OrgIso1801351Aamva dates). returns (ok x.cdl_indicator)) h18;
        dhs_compliance_text =
            e17 ∙ ap (λ (x : OrgIso1801351Aamva dates). returns (ok x.dhs_compliance_text)) h18;
        dhs_temporary_lawful_status =
            e18
            ∙ ap (λ (x : OrgIso1801351Aamva dates). returns (ok x.dhs_temporary_lawful_status)) h18;
      }

  read_all :
      (map : Object) (r : OrgIso1801351Aamva dates)
      → IsReadFrom map r
      → from_object (elements_fields dates) map ≡ returns (ok r)
  unfolding from_object elements_fields
  read_all map r h = ground (arith, h)

  -- An object is read as the namespace exactly when each of its elements reads from the entry of its
  -- own name, and the result has what they read.
  pub aamva_from_json_exact :
      (fs : Fields) (r : OrgIso1801351Aamva dates)
      → (elements_from_json dates (object fs) ≡ returns (ok r)) ↔ IsReadFrom (entries fs) r
  unfolding elements_from_json FromJson.from_json
  aamva_from_json_exact fs r =
      let (there, back) = from_object_exact (elements_fields dates) (entries fs) r in
      ((λ h. all_read (entries fs) r (there h)), (λ h. read_all (entries fs) r h))
