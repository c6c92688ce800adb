-- ===== src/Rules/Edit.antt =====
-- The editing of rules: `rules_set`, `rules_delete` and `rules_reorder`.
use clipnet.Base.{
  ℕ, ◌⊎◌, inl, inr, Bool, true, false, Option, none, some, List, [], ◌∷◌, ◌++◌, ◌==◌, if◌then◌else◌,
  Bytes, codes, bytes_eq, mem_id,
}
use clipnet.Accel.{AccelError, accel_parse_send, accel_format, ok, err}
use clipnet.Rules.{Rule}

-- The members of the document that `rules_set` reads.
pub record RuleSpec : Type 0 where
  pub action : Option Bytes
  pub match_app : Option Bytes
  pub match_mime : Option Bytes
  pub enabled : Option Bool
  pub arg_keys : Option Bytes
  pub arg_group : Option Bytes

unfoldable pub nonempty : Option Bytes → Option Bytes
nonempty none = none
nonempty (some []) = none
nonempty (some (c ∷ s)) = some (c ∷ s)

pub data RuleError : Type 0 where
  needs_action say_app say_format say_keys choose_group unknown_action no_such_rule : RuleError
  bad_keys : AccelError → RuleError

pub data Checked : Type 0 where
  stored : (action : Bytes) (app mime arg : Option Bytes) → Checked
  refused : RuleError → Checked

module _ (print : Bytes → Bytes → Bytes) (group : Bytes → Option ℕ) where
  unfoldable pub check_keys : Bytes → Bytes → Option Bytes → Checked
  unfolding accel_parse_send accel_format
  check_keys action app none = refused say_keys
  check_keys action app (some keys) = elim (accel_parse_send (some keys)) [
    | err e ↦ refused (bad_keys e)
    | ok a ↦ stored action (some app) none (some (print (codes "keys") (accel_format a)))
  ]

  unfoldable pub check_group : Bytes → Bytes → Option Bytes → Checked
  check_group action app none = refused choose_group
  check_group action app (some uuid) = elim (group uuid) [
    | none ↦ refused choose_group
    | some g ↦ stored action (some app) none (some (print (codes "group") uuid))
  ]

  -- The chain of tests on the action.
  unfoldable pub check_action : Bytes → Option Bytes → Option Bytes → RuleSpec → Checked
  unfolding check_keys check_group
  check_action action app mime spec =
      if bytes_eq action (codes "exclude")
      then elim app [ none ↦ refused say_app | some a ↦ stored action (some a) none none ]
      else if bytes_eq action (codes "skip_mime")
      then elim mime [ none ↦ refused say_format | some m ↦ stored action app (some m) none ]
      else if bytes_eq action (codes "paste_keys")
      then elim app [ none ↦ refused say_app | some a ↦ check_keys action a spec.arg_keys ]
      else if bytes_eq action (codes "to_group")
      then elim app [ none ↦ refused say_app | some a ↦ check_group action a spec.arg_group ]
      else refused unknown_action

  unfoldable pub check_rule : RuleSpec → Checked
  unfolding nonempty check_action
  check_rule spec = elim (nonempty spec.action) [
    | none ↦ refused needs_action
    | some action ↦ check_action action (nonempty spec.match_app) (nonempty spec.match_mime) spec
  ]

  abbrev pub is_enabled : Option Bool → Bool
  is_enabled none = true
  is_enabled (some b) = b

  -- UPDATE; `none` where no row has the id.
  unfoldable pub update_rule : Rule → List Rule → Option (List Rule)
  update_rule new [] = none
  update_rule new (r ∷ rs) = elim (r.id == new.id) [
    | true ↦ some (new ∷ rs)
    | false ↦ elim (update_rule new rs) [ none ↦ none | some rs' ↦ some (r ∷ rs') ]
  ]

  -- `rules_set`: the new table and the rule's id. `fresh` is the id of an inserted row.
  unfoldable pub rules_set : ℕ → ℕ → RuleSpec → List Rule → (List Rule × ℕ) ⊎ RuleError
  unfolding check_rule update_rule
  rules_set fresh id spec rules = elim (check_rule spec) [
    | refused e ↦ inr e
    | stored action app mime arg ↦
        let row : ℕ → Rule = λ i. record {
          id = i;
          enabled = is_enabled spec.enabled;
          action = action;
          match_app = app;
          match_mime = mime;
          arg = arg;
        } in
        elim (id == 0) [
          | true ↦ inl (rules ++ row fresh ∷ [], fresh)
          | false ↦ elim (update_rule (row id) rules) [
            | none ↦ inr no_such_rule
            | some rules' ↦ inl (rules', id)
          ]
        ]
  ]

unfoldable pub delete_rule : ℕ → List Rule → Option (List Rule)
delete_rule id [] = none
delete_rule id (r ∷ rs) = elim (r.id == id) [
  | true ↦ some rs
  | false ↦ elim (delete_rule id rs) [ none ↦ none | some rs' ↦ some (r ∷ rs') ]
]

unfoldable pub rules_delete : ℕ → List Rule → List Rule ⊎ RuleError
unfolding delete_rule
rules_delete id rules = elim (delete_rule id rules) [ none ↦ inr no_such_rule | some rs ↦ inl rs ]

-- The first loop of `rules_reorder`: the named ids without repetitions.
unfoldable pub dedup : List ℕ → List ℕ → List ℕ
dedup order [] = order
dedup order (i ∷ ids) = if mem_id i order then dedup order ids else dedup (order ++ i ∷ []) ids

-- The second loop: the ids of the other rows.
unfoldable pub unnamed : List ℕ → List Rule → List ℕ
unnamed ids [] = []
unnamed ids (r ∷ rs) = if mem_id r.id ids then unnamed ids rs else r.id ∷ unnamed ids rs

unfoldable pub new_order : List ℕ → List Rule → List ℕ
unfolding dedup unnamed
new_order ids rules = dedup [] ids ++ unnamed ids rules

-- The rows with an id; an UPDATE of an id that no row has changes nothing.
unfoldable pub rows_of : ℕ → List Rule → List Rule
rows_of i [] = []
rows_of i (r ∷ rs) = if r.id == i then r ∷ rows_of i rs else rows_of i rs

-- The rows that the UPDATEs number, by their new positions.
unfoldable pub numbered : List ℕ → List Rule → List Rule
unfolding rows_of
numbered [] rules = []
numbered (i ∷ is) rules = rows_of i rules ++ numbered is rules

-- The rows that no UPDATE reaches.
unfoldable pub untouched_rows : List ℕ → List Rule → List Rule
untouched_rows order [] = []
untouched_rows order (r ∷ rs) =
    if mem_id r.id order then untouched_rows order rs else r ∷ untouched_rows order rs

-- The table behind the UPDATEs. A row that none reaches stays in it; where it stands would depend on its
-- old `ord`, but `new_order` names every row.
unfoldable pub in_order : List ℕ → List Rule → List Rule
unfolding numbered untouched_rows
in_order order rules = numbered order rules ++ untouched_rows order rules

unfoldable pub rules_reorder : List ℕ → List Rule → List Rule
unfolding in_order new_order
rules_reorder ids rules = in_order (new_order ids rules) rules
