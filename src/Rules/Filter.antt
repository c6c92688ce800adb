-- ===== src/Rules/Filter.antt =====
-- The filter of a plan, without the order of the rules.
use clipnet.Base.{
  ◌≤◌, ◌≡◌, refl, sym, ap, ◌∙◌, inl, inr, Bool, true, false, ◌&&◌, ◌||◌, Option, none, some, List,
  [], ◌∷◌, arith, if◌then◌else◌, Bool-cases, Option-cases, length, Bytes, codes, bytes_eq,
}
use clipnet.Mime.{Read, Plan}
use clipnet.Rules.{Rule, glob, drop_reads, concerns, filter_reads, select_action, rules_filter_plan}

-- The reads without those of a class.
pub wanted : (Read → Bool) → List Read → List Read
wanted p [] = []
wanted p (r ∷ rs) = if p r then wanted p rs else r ∷ wanted p rs

module _ (fnmatch : Bytes → Bytes → Bool) where
  -- The pattern fits the name; no pattern fits none.
  fits : Option Bytes → Bytes → Bool
  fits none name = false
  fits (some pattern) name = fnmatch pattern name

  -- A rule without a pattern is for every application, and one with a pattern is not for an unknown one.
  fits_app : Option Bytes → Option Bytes → Bool
  fits_app none app = true
  fits_app (some pattern) none = false
  fits_app (some pattern) (some name) = fnmatch pattern name

  -- The rule is enabled, skips names, is for the application, and fits one of the read's two names.
  pub skips : Option Bytes → Rule → Read → Bool
  skips app rule r =
      rule.enabled
      && bytes_eq rule.action (codes "skip_mime")
      && fits_app rule.match_app app
      && (fits rule.match_mime r.canonical || fits rule.match_mime r.offered)

  pub any_skips : Option Bytes → List Rule → Read → Bool
  any_skips app [] r = false
  any_skips app (rule ∷ rules) r = skips app rule r || any_skips app rules r

  -- Some rule for the application has a pattern that fits one of the read's two names.
  is_unwanted : Option Bytes → List Rule → Read → Bool
  is_unwanted app [] r = false
  is_unwanted app (rule ∷ rules) r =
      (concerns fnmatch app rule
        && (glob fnmatch rule.match_mime (some r.canonical)
            || glob fnmatch rule.match_mime (some r.offered)))
      || is_unwanted app rules r

  wanted_none : (rs : List Read) → wanted (λ r. false) rs ≡ rs
  unfolding wanted
  wanted_none [] = refl
  wanted_none (r ∷ rs) = ap (◌∷◌ r) (wanted_none rs)

  drop_reads_lem :
      (pattern : Bytes) (rs : List Read)
      → drop_reads fnmatch pattern rs
        ≡ wanted
            (λ r.
              glob fnmatch (some pattern) (some r.canonical)
              || glob fnmatch (some pattern) (some r.offered))
            rs
  unfolding drop_reads wanted
  drop_reads_lem pattern [] = refl
  drop_reads_lem pattern (r ∷ rs) = rw (drop_reads_lem pattern rs)

  wanted-wanted :
      (p q : Read → Bool) (rs : List Read) → wanted q (wanted p rs) ≡ wanted (λ r. p r || q r) rs
  unfolding wanted
  wanted-wanted p q [] = refl
  wanted-wanted p q (r ∷ rs) = elim (Bool-cases (p r)) [
    | inl e ↦ ground (arith, e, wanted-wanted p q rs)
    | inr e ↦ ground (arith, e, wanted-wanted p q rs)
  ]

  wanted-same :
      (p q : Read → Bool) (rs : List Read) → ((r : Read) → p r ≡ q r) → wanted p rs ≡ wanted q rs
  unfolding wanted
  wanted-same p q [] h = refl
  wanted-same p q (r ∷ rs) h = rw (h r, wanted-same p q rs h)

  filter_reads_lem :
      (app : Option Bytes) (rules : List Rule) (rs : List Read)
      → filter_reads fnmatch app rules rs ≡ wanted (is_unwanted app rules) rs
  unfolding filter_reads is_unwanted
  filter_reads_lem app [] rs = sym (wanted_none rs)
  filter_reads_lem app (rule ∷ rules) rs = elim (Option-cases rule.match_mime) [
    | inl e ↦
        filter_skip e
        ∙ filter_reads_lem app rules rs
        ∙ wanted-same (is_unwanted app rules) (is_unwanted app (rule ∷ rules)) rs
            (λ r. no_pattern e r)
    | inr (p, e) ↦ elim (Bool-cases (concerns fnmatch app rule)) [
      | inr f ↦
          other_app p e f
          ∙ filter_reads_lem app rules rs
          ∙ wanted-same (is_unwanted app rules) (is_unwanted app (rule ∷ rules)) rs
              (λ r. other_read p e f r)
      | inl f ↦
          applied p e f
          ∙ filter_reads_lem app rules (drop_reads fnmatch p rs)
          ∙ ap (wanted (is_unwanted app rules)) (drop_reads_lem p rs)
          ∙ wanted-wanted
              (λ r.
                glob fnmatch (some p) (some r.canonical) || glob fnmatch (some p) (some r.offered))
              (is_unwanted app rules) rs
          ∙ wanted-same
              (λ r.
                (glob fnmatch (some p) (some r.canonical) || glob fnmatch (some p) (some r.offered))
                || is_unwanted app rules r)
              (is_unwanted app (rule ∷ rules)) rs (λ r. applied_read p e f r)
    ]
  ]
    where
      filter_skip :
          rule.match_mime ≡ none
          → filter_reads fnmatch app (rule ∷ rules) rs ≡ filter_reads fnmatch app rules rs
      filter_skip e = ground (arith, e)

      no_pattern :
          rule.match_mime ≡ none
          → (r : Read) → is_unwanted app rules r ≡ is_unwanted app (rule ∷ rules) r
      no_pattern e r = unfold glob in ground (arith, e)

      other_app :
          (p : Bytes)
          → rule.match_mime ≡ some p
          → concerns fnmatch app rule ≡ false
          → filter_reads fnmatch app (rule ∷ rules) rs ≡ filter_reads fnmatch app rules rs
      other_app p e f = ground (arith, e, f)

      other_read :
          (p : Bytes)
          → rule.match_mime ≡ some p
          → concerns fnmatch app rule ≡ false
          → (r : Read) → is_unwanted app rules r ≡ is_unwanted app (rule ∷ rules) r
      other_read p e f r = ground (arith, f)

      applied :
          (p : Bytes)
          → rule.match_mime ≡ some p
          → concerns fnmatch app rule ≡ true
          → filter_reads fnmatch app (rule ∷ rules) rs
            ≡ filter_reads fnmatch app rules (drop_reads fnmatch p rs)
      applied p e f = ground (arith, e, f)

      applied_read :
          (p : Bytes)
          → rule.match_mime ≡ some p
          → concerns fnmatch app rule ≡ true
          → (r : Read)
          → ((glob fnmatch (some p) (some r.canonical) || glob fnmatch (some p) (some r.offered))
              || is_unwanted app rules r)
            ≡ is_unwanted app (rule ∷ rules) r
      applied_read p e f r = rw (e, f) refl

  length-wanted : (p : Read → Bool) (rs : List Read) → length (wanted p rs) ≤ length rs
  unfolding wanted
  length-wanted p [] = omega arith
  length-wanted p (r ∷ rs) = ground (arith, length-wanted p rs)

  glob-fits : (o : Option Bytes) (name : Bytes) → glob fnmatch o (some name) ≡ fits o name
  unfolding glob fits
  glob-fits none name = refl
  glob-fits (some pattern) name = refl

  pattern-fits_app :
      (o a : Option Bytes)
      → (elim o [ none ↦ true | some pattern ↦ glob fnmatch (some pattern) a ]) ≡ fits_app o a
  unfolding glob fits_app
  pattern-fits_app none a = refl
  pattern-fits_app (some pattern) none = refl
  pattern-fits_app (some pattern) (some name) = refl

  concerns-fits_app :
      (app : Option Bytes) (rule : Rule) → concerns fnmatch app rule ≡ fits_app rule.match_app app
  unfolding concerns
  concerns-fits_app app rule = pattern-fits_app rule.match_app app

  is_unwanted-any_skips :
      (app : Option Bytes) (rules : List Rule) (r : Read)
      → is_unwanted app (select_action (codes "skip_mime") rules) r ≡ any_skips app rules r
  unfolding select_action is_unwanted any_skips skips
  is_unwanted-any_skips app [] r = refl
  is_unwanted-any_skips app (rule ∷ rules) r =
      let rest = is_unwanted-any_skips app rules r in
      let here = concerns-fits_app app rule in
      let first = glob-fits rule.match_mime r.canonical in
      let second = glob-fits rule.match_mime r.offered in
      elim (Bool-cases (rule.enabled && bytes_eq rule.action (codes "skip_mime"))) [
        | inl e ↦ ground (arith, e, rest, here, first, second)
        | inr e ↦ ground (arith, e, rest)
      ]

  -- The plan keeps, in their order, exactly the reads that no rule of the table skips, and nothing else
  -- of it changes; a rule skips a read if it is an enabled `skip_mime` rule, for the application or
  -- without a pattern for it, whose pattern for names fits the name stored or the name requested.
  pub rules_filter_plan_lem :
      (rules : List Rule) (app : Option Bytes) (plan : Plan)
      → rules_filter_plan fnmatch rules app plan
        ≡ record plan { reads = wanted (any_skips app rules) plan.reads }
  unfolding rules_filter_plan
  rules_filter_plan_lem rules app plan =
      ap (λ (rs : List Read). record plan { reads = rs })
        (filter_reads_lem app (select_action (codes "skip_mime") rules) plan.reads
          ∙ wanted-same (is_unwanted app (select_action (codes "skip_mime") rules))
              (any_skips app rules) plan.reads (λ r. is_unwanted-any_skips app rules r))

  pub rules_filter_plan_bound :
      (rules : List Rule) (app : Option Bytes) (plan : Plan)
      → length (rules_filter_plan fnmatch rules app plan).reads ≤ length plan.reads
  rules_filter_plan_bound rules app plan =
      rw (rules_filter_plan_lem rules app plan) (length-wanted (any_skips app rules) plan.reads)
