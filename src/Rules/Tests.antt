-- ===== src/Rules/Tests.antt =====
-- A small table of rules, with equality in the place of the patterns of `fnmatch`.
use clipnet.Base.{
  ℕ, ◌≡◌, refl, inl, inr, true, false, Option, none, some, List, [], ◌∷◌, ◌++◌, length, Bytes,
  codes, bytes_eq,
}
use clipnet.Accel.{accel_keysym, accel_parse_send, accel_hypr_mods, ok}
use clipnet.Mime.{mime_text, mime_html, Plan}
use clipnet.Rules.{Rule, rules_excluded, rules_filter_plan, rules_paste_keys}
use clipnet.Rules.Edit.{rules_set, rules_delete, rows_of, rules_reorder, no_such_rule}
use clipnet.Rules.Filter.{wanted, rules_filter_plan_lem, any_skips}
use clipnet.Rules.Order.{AllDistinct, rule_ids, rules_reorder_rows, present, absent, firsts}
use clipnet.Rules.Keys.{rules_set_paste_keys}

abbrev skip_html : Rule
skip_html = record {
  id = 4;
  enabled = true;
  action = codes "skip_mime";
  match_app = none;
  match_mime = some (codes "text/html");
  arg = none;
}

abbrev exclude_vault : Rule
exclude_vault = record {
  id = 2;
  enabled = true;
  action = codes "exclude";
  match_app = some (codes "vault");
  match_mime = none;
  arg = none;
}

abbrev table : List Rule
table = skip_html ∷ exclude_vault ∷ record skip_html { id = 7; enabled = false } ∷ []

abbrev two_reads : Plan
two_reads = record {
  reads =
      record { offered = codes "STRING"; canonical = mime_text }
      ∷ record { offered = mime_html; canonical = mime_html }
      ∷ [];
  text_aliases = [];
  is_ours = false;
  is_sensitive = false;
}

runs :
    (length (rules_filter_plan bytes_eq table none two_reads).reads ≡ 1)
    × (rules_excluded bytes_eq table (some (codes "vault")) ≡ true)
    × (rule_ids (rules_reorder (7 ∷ 9 ∷ 7 ∷ []) table) ≡ 7 ∷ 4 ∷ 2 ∷ [])
    × (rules_delete 9 table ≡ inr no_such_rule)
unfolding rules_filter_plan rules_excluded rules_reorder rules_delete
runs = (refl, refl, refl, refl)

rules_filter_plan_lem_example :
    rules_filter_plan bytes_eq table none two_reads
    ≡ record two_reads { reads = wanted (any_skips bytes_eq none table) two_reads.reads }
rules_filter_plan_lem_example = rules_filter_plan_lem bytes_eq table none two_reads

table_distinct : AllDistinct (rule_ids table)
unfolding AllDistinct
table_distinct = (refl, (refl, (refl, tt)))

rules_reorder_rows_example :
    (rule_ids (rules_reorder (7 ∷ 9 ∷ 7 ∷ []) table)
      ≡ present (rule_ids table) (firsts (7 ∷ 9 ∷ 7 ∷ []))
        ++ absent (7 ∷ 9 ∷ 7 ∷ []) (rule_ids table))
    × ((i : ℕ) → rows_of i (rules_reorder (7 ∷ 9 ∷ 7 ∷ []) table) ≡ rows_of i table)
rules_reorder_rows_example = rules_reorder_rows (7 ∷ 9 ∷ 7 ∷ []) table table_distinct

-- A document with one member, the text itself.
only_member : Bytes → Bytes → Option Bytes
only_member key text = some text

print_text : Bytes → Bytes → Bytes
print_text key text = text

keys_accepted :
    accel_parse_send (some (codes "shift+ins")) ≡ ok (record { mods = 1; key = codes "Insert" })
unfolding accel_parse_send
keys_accepted = refl

rules_set_paste_keys_example :
    (after : List Rule) × (rules_set print_text
        (λ u. none)
        9
        0
        (record {
          action = some (codes "paste_keys");
          match_app = some (codes "foot");
          match_mime = none;
          enabled = none;
          arg_keys = some (codes "shift+ins");
          arg_group = none;
        })
        table
      ≡ inl (after, 9))
    × (rules_paste_keys only_member after
        ≡ rules_paste_keys only_member table
          ++ record {
            pattern = codes "foot";
            mods = accel_hypr_mods (record { mods = 1; key = codes "Insert" });
            key = accel_keysym (record { mods = 1; key = codes "Insert" });
          }
            ∷ [])
rules_set_paste_keys_example =
    rules_set_paste_keys only_member print_text (λ key text. unfold only_member print_text in refl)
      (λ u. none) 9 b'f' (codes "oot") (codes "shift+ins") none none
      (record { mods = 1; key = codes "Insert" }) table keys_accepted
