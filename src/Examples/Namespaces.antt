-- ===== src/Examples/Namespaces.antt =====
-- The enumerations of src/definitions/namespaces at concrete texts.
use isomdl.Prelude.{◌≡◌, ◌↔◌, ok}
use isomdl.Prelude.Text.{codes}
use isomdl.Namespaces.Alpha2.{as_str, code_no}
use isomdl.Namespaces.Alpha2.Parse.{from_str}
use isomdl.Namespaces.Alpha2.RoundTrip.{from_str_exact}

from_str_exact_example : (from_str (codes "NO") ≡ ok code_no) ↔ (codes "NO" ≡ as_str code_no)
from_str_exact_example = from_str_exact (codes "NO") code_no
