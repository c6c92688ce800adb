-- ===== src/Rules/Keys.antt =====
-- `rules_set` and `rules_paste_keys` on the same table.
use clipnet.Base.{
  ℕ, ◌≡◌, refl, sym, ap, ◌∙◌, inl, true, false, Option, none, some, List, [], ◌∷◌, ◌++◌,
  append_assoc, arith, Bytes, codes,
}
use clipnet.Accel.{Accel, accel_keysym, accel_parse_send, accel_format, accel_hypr_mods, ok}
use clipnet.Accel.Sound.{parse-IsCanonical}
use clipnet.Accel.RoundTrip.{accel_parse-accel_format}
use clipnet.Rules.{Rule, select_action, paste_key, paste_keys_from, rules_paste_keys}
use clipnet.Rules.Edit.{RuleSpec, nonempty, check_keys, check_action, check_rule, rules_set, stored}

select_action-append :
    (action : Bytes) (xs ys : List Rule)
    → select_action action (xs ++ ys) ≡ select_action action xs ++ select_action action ys
unfolding select_action
select_action-append action [] ys = refl
select_action-append action (x ∷ xs) ys = ground (arith, select_action-append action xs ys)

module _ (member : Bytes → Bytes → Option Bytes) where
  paste_keys_from-append :
      (xs ys : List Rule)
      → paste_keys_from member (xs ++ ys) ≡ paste_keys_from member xs ++ paste_keys_from member ys
  unfolding paste_keys_from
  paste_keys_from-append [] ys = refl
  paste_keys_from-append (x ∷ xs) ys =
      rw (paste_keys_from-append xs ys) (sym (append_assoc (paste_key member x) _ _))

  rules_paste_keys-append :
      (xs ys : List Rule)
      → rules_paste_keys member (xs ++ ys)
        ≡ rules_paste_keys member xs ++ rules_paste_keys member ys
  unfolding rules_paste_keys
  rules_paste_keys-append xs ys = rw (select_action-append (codes "paste_keys") xs ys) (
      paste_keys_from-append (select_action (codes "paste_keys") xs)
        (select_action (codes "paste_keys") ys))

  module _ (print : Bytes → Bytes → Bytes)
      (member-print : (key text : Bytes) → member key (print key text) ≡ some text) where
    key_row : ℕ → Bytes → Accel → Rule
    key_row i app a = record {
      id = i;
      enabled = true;
      action = codes "paste_keys";
      match_app = some app;
      match_mime = none;
      arg = some (print (codes "keys") (accel_format a));
    }

    paste_key-key_row :
        (i : ℕ) (app keys : Bytes) (a : Accel)
        → accel_parse_send (some keys) ≡ ok a
        → paste_key member (key_row i app a)
          ≡ record { pattern = app; mods = accel_hypr_mods a; key = accel_keysym a } ∷ []
    unfolding paste_key key_row
    paste_key-key_row i app keys a h =
        let canonical = parse-IsCanonical (some keys) false a (unfold accel_parse_send in h) in
        let again = (accel_parse-accel_format a canonical).0 in
        rw (member-print (codes "keys") (accel_format a)) (rw again refl)

    check_keys-ok :
        (group : Bytes → Option ℕ) (app keys : Bytes) (a : Accel)
        → accel_parse_send (some keys) ≡ ok a
        → check_keys print group (codes "paste_keys") app (some keys)
          ≡ stored
              (codes "paste_keys")
              (some app)
              none
              (some (print (codes "keys") (accel_format a)))
    unfolding check_keys
    check_keys-ok group app keys a h = rw (h, check_keys) refl

    keys_spec : ℕ → Bytes → Bytes → Option Bytes → Option Bytes → RuleSpec
    keys_spec c app keys mime g = record {
      action = some (codes "paste_keys");
      match_app = some (c ∷ app);
      match_mime = mime;
      enabled = none;
      arg_keys = some keys;
      arg_group = g;
    }

    check_rule-ok :
        (group : Bytes → Option ℕ) (c : ℕ) (app keys : Bytes) (mime g : Option Bytes) (a : Accel)
        → accel_parse_send (some keys) ≡ ok a
        → check_rule print group (keys_spec c app keys mime g)
          ≡ stored
              (codes "paste_keys")
              (some (c ∷ app))
              none
              (some (print (codes "keys") (accel_format a)))
    unfolding check_rule check_action nonempty keys_spec
    check_rule-ok group c app keys mime g a h = check_keys-ok group (c ∷ app) keys a h

    rules_set_row :
        (group : Bytes → Option ℕ) (fresh c : ℕ) (app keys : Bytes) (mime g : Option Bytes)
        (a : Accel) (rules : List Rule)
        → accel_parse_send (some keys) ≡ ok a
        → rules_set print group fresh 0 (keys_spec c app keys mime g) rules
          ≡ inl (rules ++ key_row fresh (c ∷ app) a ∷ [], fresh)
    unfolding rules_set keys_spec key_row
    rules_set_row group fresh c app keys mime g a rules h =
        rw (check_rule-ok group c app keys mime g a h, rules_set) refl

    -- Where cJSON reads back the strings that it prints, a new rule for the paste keys of an application,
    -- with keys that `accel_parse_send` accepts, is stored, and `rules_paste_keys` then lists, behind
    -- what it listed before, the pattern with the modifiers and the keysym of those keys.
    pub rules_set_paste_keys :
        (group : Bytes → Option ℕ) (fresh c : ℕ) (app keys : Bytes) (mime g : Option Bytes)
        (a : Accel) (rules : List Rule)
        → accel_parse_send (some keys) ≡ ok a
        → (after : List Rule) × (rules_set print group fresh 0
              (record {
                action = some (codes "paste_keys");
                match_app = some (c ∷ app);
                match_mime = mime;
                enabled = none;
                arg_keys = some keys;
                arg_group = g;
              })
              rules
            ≡ inl (after, fresh))
          × (rules_paste_keys member after
              ≡ rules_paste_keys member rules
                ++ record { pattern = c ∷ app; mods = accel_hypr_mods a; key = accel_keysym a }
                  ∷ [])
    rules_set_paste_keys group fresh c app keys mime g a rules h =
        let row = key_row fresh (c ∷ app) a in
        (
          rules ++ row ∷ [],
          unfold keys_spec in rules_set_row group fresh c app keys mime g a rules h,
          rules_paste_keys-append rules (row ∷ [])
              ∙ ap (◌++◌ (rules_paste_keys member rules)) (
                  unfold rules_paste_keys select_action key_row paste_keys_from in
                  rw (paste_key-key_row fresh (c ∷ app) keys a h) refl),
        )
