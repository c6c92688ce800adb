-- ===== src/Rules.antt =====
-- daemon/src/rules.c: per-application rules. The table is the list of its rows in the order of
-- `ORDER BY ord, id`; a row that is inserted gets the greatest `ord`, so it stands last, and writing the
-- positions 1..N puts the rows in the order of the list that is written. SQLite does not fail here.
-- `fnmatch` with FNM_CASEFOLD is a parameter, as are `member`, the string that cJSON finds under a key
-- of a text, `print`, the text that it prints for one, and `group`, the id of a group's uuid.
pub mod Filter
pub mod Edit
pub mod Order
pub mod Keys
pub mod Tests
use clipnet.Base.{
  ℕ, Bool, true, false, ◌&&◌, ◌||◌, not, Option, none, some, List, [], ◌∷◌, ◌++◌, ◌==◌,
  if◌then◌else◌, Bytes, codes, bytes_eq,
}
use clipnet.Accel.{accel_keysym, accel_parse_send, accel_hypr_mods, ok, err}
use clipnet.Mime.{Read, Plan}

pub record Rule : Type 0 where
  pub id : ℕ
  pub enabled : Bool
  pub action : Bytes
  pub match_app : Option Bytes
  pub match_mime : Option Bytes
  pub arg : Option Bytes

-- `select_action`.
unfoldable pub select_action : Bytes → List Rule → List Rule
select_action action [] = []
select_action action (r ∷ rs) =
    if r.enabled && bytes_eq r.action action
    then r ∷ select_action action rs
    else select_action action rs

pub record PasteKey : Type 0 where
  pub pattern : Bytes
  pub mods : Bytes
  pub key : Bytes

module _ (fnmatch : Bytes → Bytes → Bool) where
  unfoldable pub glob : Option Bytes → Option Bytes → Bool
  glob none s = false
  glob (some pattern) none = false
  glob (some pattern) (some s) = fnmatch pattern s

  unfoldable pub any_app : Bytes → List Rule → Bool
  unfolding glob
  any_app app [] = false
  any_app app (r ∷ rs) = glob r.match_app (some app) || any_app app rs

  unfoldable pub rules_excluded : List Rule → Option Bytes → Bool
  unfolding select_action any_app
  rules_excluded rules none = false
  rules_excluded rules (some []) = false
  rules_excluded rules (some (c ∷ app)) = any_app (c ∷ app) (select_action (codes "exclude") rules)

  -- The inner loop of `rules_filter_plan` for one pattern.
  unfoldable pub drop_reads : Bytes → List Read → List Read
  unfolding glob
  drop_reads pattern [] = []
  drop_reads pattern (r ∷ rs) =
      if glob (some pattern) (some r.canonical) || glob (some pattern) (some r.offered)
      then drop_reads pattern rs
      else r ∷ drop_reads pattern rs

  -- Does the rule concern the application? A rule without a pattern concerns all.
  unfoldable pub concerns : Option Bytes → Rule → Bool
  unfolding glob
  concerns app r = elim r.match_app [ none ↦ true | some pattern ↦ glob (some pattern) app ]

  unfoldable pub filter_reads : Option Bytes → List Rule → List Read → List Read
  unfolding drop_reads concerns
  filter_reads app [] reads = reads
  filter_reads app (r ∷ rs) reads = elim r.match_mime [
    | none ↦ filter_reads app rs reads
    | some pattern ↦ elim (concerns app r) [
      | false ↦ filter_reads app rs reads
      | true ↦ filter_reads app rs (drop_reads pattern reads)
    ]
  ]

  unfoldable pub rules_filter_plan : List Rule → Option Bytes → Plan → Plan
  unfolding select_action filter_reads
  rules_filter_plan rules app plan = record plan {
    reads = filter_reads app (select_action (codes "skip_mime") rules) plan.reads;
  }

-- The string under a key of the argument.
abbrev pub arg_member : (Bytes → Bytes → Option Bytes) → Bytes → Option Bytes → Option Bytes
arg_member member key none = none
arg_member member key (some text) = member key text

module _ (fnmatch : Bytes → Bytes → Bool) (member : Bytes → Bytes → Option Bytes)
    (group : Bytes → Option ℕ) where
  -- The group that a rule names; 0 if it names none.
  unfoldable pub rule_group : Rule → ℕ
  rule_group r = elim (arg_member member (codes "group") r.arg) [
    | none ↦ 0
    | some uuid ↦ elim (group uuid) [ none ↦ 0 | some g ↦ g ]
  ]

  unfoldable pub route_from : Bytes → List Rule → ℕ
  unfolding glob rule_group
  route_from app [] = 0
  route_from app (r ∷ rs) =
      if glob fnmatch r.match_app (some app) && not (rule_group r == 0)
      then rule_group r
      else route_from app rs

  unfoldable pub rules_route_group : List Rule → Option Bytes → ℕ
  unfolding select_action route_from
  rules_route_group rules none = 0
  rules_route_group rules (some []) = 0
  rules_route_group rules (some (c ∷ app)) =
      route_from (c ∷ app) (select_action (codes "to_group") rules)

-- What `rules_paste_keys` makes of a row.
unfoldable pub paste_key : (Bytes → Bytes → Option Bytes) → Rule → List PasteKey
unfolding accel_parse_send accel_hypr_mods accel_keysym
paste_key member r = elim r.match_app [
  | none ↦ []
  | some pattern ↦ elim (arg_member member (codes "keys") r.arg) [
    | none ↦ []
    | some keys ↦ elim (accel_parse_send (some keys)) [
      | err e ↦ []
      | ok a ↦ record { pattern = pattern; mods = accel_hypr_mods a; key = accel_keysym a } ∷ []
    ]
  ]
]

unfoldable pub paste_keys_from : (Bytes → Bytes → Option Bytes) → List Rule → List PasteKey
unfolding paste_key
paste_keys_from member [] = []
paste_keys_from member (r ∷ rs) = paste_key member r ++ paste_keys_from member rs

unfoldable pub rules_paste_keys : (Bytes → Bytes → Option Bytes) → List Rule → List PasteKey
unfolding select_action paste_keys_from
rules_paste_keys member rules = paste_keys_from member (select_action (codes "paste_keys") rules)
