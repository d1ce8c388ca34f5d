-- ===== src/Contract/Examples.antt =====
-- A project with a contract and a consumer on which the results of platform/contract apply.
use runko.Prelude.{refl, inl, true, false, Option, some, List, [], ◌∷◌, arith, Text, codes}
use runko.Contract.{Project, File, owner_of, check}
use runko.Contract.Clean.{Declares, check-edges}

abbrev plain_project : Text → List Text → Text → Project
plain_project name consumes gen_dir = record {
  name = name;
  path = name;
  dependencies = [];
  test_dependencies = [];
  consumes = consumes;
  contract_gen_dir = gen_dir;
  declares_http = false;
  openapi_path = [];
  openapi_present = false;
}

abbrev pay : Project
pay = record (plain_project (codes "pay") [] (codes "pay/gen")) {
  declares_http = true;
  openapi_path = codes "pay/api.yaml";
  openapi_present = true;
}

abbrev shop : Project
shop = plain_project (codes "shop") (codes "pay" ∷ []) []

abbrev projects : List Project
projects = pay ∷ shop ∷ []

abbrev shop_file : File
shop_file = record { path = codes "shop/a.go"; content = [] }

abbrev import_literal : Text
import_literal = codes "\"m/pay/gen/v1\""

abbrev imports : File → Option (List Text)
imports file = some (import_literal ∷ [])

check-edges_example : Declares (owner_of projects (codes "shop/a.go")) pay
unfolding check
check-edges_example =
    check-edges imports (codes "m") projects (shop_file ∷ []) (codes "shop/a.go" ∷ [])
      (λ e. ground arith) refl shop_file (import_literal ∷ []) import_literal pay (inl refl) refl
      refl (inl refl) (codes "pay/gen/v1", refl, refl, λ e. ground arith, refl)
