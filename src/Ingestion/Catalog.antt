-- ===== src/Ingestion/Catalog.antt =====
-- internal/ingestion/catalog.go: the catalog of jobs. Of a definition only what decides how a job is
-- scheduled and stored is kept: its key, and the flags that its category and strategy come from.
use dwh_v.Common.{
  ◌≡◌, Bool, true, false, String, str_eq, eq_iff, Option, none, some, List, [], ◌∷◌, ◌++◌, map,
  if◌then◌else◌, All, arith, if_rule, Bool-cases, inl, inr, subst, ap, sym, ◌∙◌,
}

pub data JobCategory : Type 0 where
  category_fixed category_eod category_cbr category_detail category_master : JobCategory

pub data DateStrategy : Type 0 where
  range_capable single_date no_date : DateStrategy

abbrev pub same_strategy : DateStrategy → DateStrategy → Bool
same_strategy range_capable range_capable = true
same_strategy single_date single_date = true
same_strategy no_date no_date = true
same_strategy _ _ = false

pub record JobDefinition : Type 0 where
  pub key : String
  pub category : JobCategory
  pub date_strategy : DateStrategy

pub record FixedDefinition : Type 0 where
  pub key : String
  pub snapshot_date : Bool

pub record MaintenanceDefinition : Type 0 where
  pub key : String
  pub is_cbr : Bool

abbrev pub fixed_job : FixedDefinition → JobDefinition
fixed_job d = record {
  key = d.key;
  category = category_fixed;
  date_strategy = if d.snapshot_date then single_date else range_capable;
}

abbrev pub maintenance_job : MaintenanceDefinition → JobDefinition
maintenance_job d = record {
  key = d.key;
  category = if d.is_cbr then category_cbr else category_eod;
  date_strategy = single_date;
}

abbrev live_job : JobCategory → String → JobDefinition
live_job category key = record { key = key; category = category; date_strategy = no_date }

abbrev pub detail_keys : List String
detail_keys =
    "cif_detail" ∷ "saving_detail" ∷ "time_deposit_detail" ∷ "loan_detail" ∷ "saving_block_detail"
    ∷ []

abbrev pub master_keys : List String
master_keys =
    "cif_reference_master" ∷ "saving_reference_master" ∷ "time_deposit_reference_master"
    ∷ "loan_reference_master" ∷ "marketing_master" ∷ []

-- The jobs that `NewCatalog` collects, from definitions that its validations accept.
unfoldable pub catalog_jobs : List FixedDefinition → List MaintenanceDefinition → List JobDefinition
catalog_jobs fixed maintenance =
    map fixed_job fixed
    ++ (map maintenance_job maintenance
        ++ (map (live_job category_detail) detail_keys
            ++ map (live_job category_master) master_keys))

abbrev pub find_job : String → List JobDefinition → Option JobDefinition
find_job key [] = none
find_job key (j ∷ js) = if str_eq j.key key then some j else find_job key js

-- The strategies that go with a category.
abbrev pub Suits : JobCategory → DateStrategy → Type 0
Suits category_fixed range_capable = Unit
Suits category_fixed single_date = Unit
Suits category_eod single_date = Unit
Suits category_cbr single_date = Unit
Suits category_detail no_date = Unit
Suits category_master no_date = Unit
Suits _ _ = ⊥

abbrev pub IsCoherent : JobDefinition → Type 0
IsCoherent j = Suits j.category j.date_strategy

All-append :
    (xs ys : List JobDefinition) → All IsCoherent xs → All IsCoherent ys → All IsCoherent (xs ++ ys)
All-append [] ys p q = q
All-append (x ∷ xs) ys p q = (p.0, All-append xs ys p.1 q)

fixed_jobs-IsCoherent : (ds : List FixedDefinition) → All IsCoherent (map fixed_job ds)
fixed_jobs-IsCoherent [] = tt
fixed_jobs-IsCoherent (d ∷ ds) =
    (if_rule (Suits category_fixed) d.snapshot_date (λ _. tt) (λ _. tt), fixed_jobs-IsCoherent ds)

maintenance_jobs-IsCoherent :
    (ds : List MaintenanceDefinition) → All IsCoherent (map maintenance_job ds)
maintenance_jobs-IsCoherent [] = tt
maintenance_jobs-IsCoherent (d ∷ ds) = (
  if_rule (λ c. Suits c single_date) d.is_cbr (λ _. tt) (λ _. tt),
  maintenance_jobs-IsCoherent ds,
)

pub catalog_jobs-IsCoherent :
    (fixed : List FixedDefinition) (maintenance : List MaintenanceDefinition)
    → All IsCoherent (catalog_jobs fixed maintenance)
unfolding catalog_jobs
catalog_jobs-IsCoherent fixed maintenance =
    All-append (map fixed_job fixed) _ (fixed_jobs-IsCoherent fixed) (
      All-append (map maintenance_job maintenance) _ (maintenance_jobs-IsCoherent maintenance)
        (omega arith))

-- Whatever the catalog holds under a key has that key, and a date strategy that suits its category.
pub find_job_sound :
    (P : JobDefinition → Type 0) (key : String) (js : List JobDefinition) {j : JobDefinition}
    → find_job key js ≡ some j
    → All P js
    → P j × (j.key ≡ key)
find_job_sound P key [] e p = cc
find_job_sound P key (x ∷ xs) {j} e p = elim (Bool-cases (str_eq x.key key)) [
  | inl hit ↦
      let q : x ≡ j = ground arith in
      (subst P q p.0, ap (λ (j : JobDefinition). j.key) (sym q) ∙ (eq_iff x.key key).0 hit)
  | inr miss ↦ find_job_sound P key xs (ground arith) p.1
]
