-- ===== src/Focus/Normal.antt =====
-- Which rules `normalizeFocusRules` of cli/web_focus.go lets through.
use http_capture.Prelude.{
  ℕ, suc, ◌≤◌, true, false, ℤ, Bytes, codes, List, [], ◌∷◌, Option, none, some, ◌≡◌, ◌≢◌, ◌⊎◌, inl,
  inr, refl, ap, ◌∙◌, sym, subst, arith, All, str_eq, str_eq_iff, length, ltb, Bool-cases, map,
  trim_space,
}
use http_capture.Errors.{Error}
use http_capture.Effects.{Outcome, ok, err}
use http_capture.Focus.{
  FocusRule, valid_focus_rule_type, valid_http_method, contains_id, trimmed_rule, refused_rule,
  with_rule, normalize_rules, normalize_focus_rules,
}

-- A rule that the index can turn into a condition.
pub record IsUsable (rule : FocusRule) : Type 0 where
  pub known_kind : valid_focus_rule_type rule.kind ≡ true
  pub known_method :
      rule.kind ≡ codes "method_url_contains"
      → (rule.method ≡ []) ⊎ (valid_http_method rule.method ≡ true)
  pub pattern : rule.pattern ≢ []
  pub short_pattern : length rule.pattern ≤ 512
  pub short_name : length rule.name ≤ 100

abbrev pub DistinctIds : List FocusRule → Type 0
DistinctIds [] = Unit
DistinctIds (r ∷ rules) = All (λ s. s.id ≢ r.id) rules × DistinctIds rules

abbrev Unseen : List Bytes → List FocusRule → Type 0
Unseen seen = All (λ s. contains_id s.id seen ≡ false)

refused_rule-none :
    (seen : List Bytes) (r : FocusRule)
    → refused_rule seen r ≡ none
    → IsUsable r × (contains_id r.id seen ≡ false)
unfolding refused_rule
refused_rule-none seen r h = (
  record {
    known_kind = ground arith;
    known_method = λ e. known e;
    pattern = ground (arith, str_eq_iff r.pattern []);
    short_pattern = ground arith;
    short_name = ground arith;
  },
  ground arith,
)
  where
    known :
        r.kind ≡ codes "method_url_contains" → (r.method ≡ []) ⊎ (valid_http_method r.method ≡ true)
    known e = elim (Bool-cases (str_eq r.method [])) [
      | inl any ↦ inl ((str_eq_iff r.method []).0 any)
      | inr one ↦ inr (ground (arith, str_eq_iff r.kind (codes "method_url_contains")))
    ]

with_rule-ok :
    (r : FocusRule) (o : Option Error) (rest : Outcome (List FocusRule)) (rules : List FocusRule)
    → with_rule r o rest ≡ ok rules
    → (tail : List FocusRule) × (o ≡ none) × (rest ≡ ok tail) × (rules ≡ r ∷ tail)
with_rule-ok r (some e) rest rules h = absurd (cc h)
with_rule-ok r none (err e) rules h = absurd (cc h)
with_rule-ok r none (ok tail) rules h = (tail, refl, refl, cc h)

Unseen-apart :
    (id : Bytes) (seen : List Bytes) (rules : List FocusRule)
    → Unseen (id ∷ seen) rules
    → All (λ s. s.id ≢ id) rules × Unseen seen rules
unfolding contains_id
Unseen-apart id seen [] u = (tt, tt)
Unseen-apart id seen (s ∷ rules) (h, u) =
    let (apart, rest) = Unseen-apart id seen rules u in
    (((λ e. absurd (ground (arith, str_eq_iff id s.id, sym e))), apart), (ground arith, rest))

-- What the loop lets through behind the ids `seen`.
record Through (seen : List Bytes) (given rules : List FocusRule) : Type 0 where
  pub usable : All IsUsable rules
  pub distinct : DistinctIds rules
  pub unseen : Unseen seen rules
  pub patterns : map (λ r. r.pattern) rules ≡ map (λ r. trim_space r.pattern) given

length-map : (f : FocusRule → Bytes) (rules : List FocusRule) → length (map f rules) ≡ length rules
length-map f [] = refl
length-map f (r ∷ rules) = ap suc (length-map f rules)

module _ (now : ℤ) (fresh : ℕ → Bytes) where
  normalize_rules-Through :
      (n : ℕ) (seen : List Bytes) (given rules : List FocusRule)
      → normalize_rules now fresh n seen given ≡ ok rules
      → Through seen given rules
  unfolding normalize_rules trimmed_rule
  normalize_rules-Through n seen [] rules h =
      let whole : [] ≡ rules = cc h in
      subst (Through seen []) whole
        (record { usable = tt; distinct = tt; unseen = tt; patterns = refl })
  normalize_rules-Through n seen (r ∷ given) rules h =
      let next = trimmed_rule now (fresh n) r in
      let (tail, clear, rest, whole) =
        with_rule-ok next (refused_rule seen next)
          (normalize_rules now fresh (suc n) (next.id ∷ seen) given) rules h in
      let through = normalize_rules-Through (suc n) (next.id ∷ seen) given tail rest in
      let (usable, new) = refused_rule-none seen next clear in
      let (apart, unseen) = Unseen-apart next.id seen tail through.unseen in
      subst (Through seen (r ∷ given)) (sym whole) (record {
        usable = (usable, through.usable);
        distinct = (apart, through.distinct);
        unseen = (new, unseen);
        patterns = ap (λ ps. trim_space r.pattern ∷ ps) through.patterns;
      })

  -- The rules that are let through can each be used, no two have one id, and they are at most a
  -- hundred; their patterns are the trimmed patterns of the given rules, in the given order.
  pub normalize_focus_rules-IsUsable :
      (given rules : List FocusRule)
      → normalize_focus_rules now fresh given ≡ ok rules
      → All IsUsable rules
        × DistinctIds rules
        × (length rules ≤ 100)
        × (map (λ r. r.pattern) rules ≡ map (λ r. trim_space r.pattern) given)
  unfolding normalize_focus_rules
  normalize_focus_rules-IsUsable given rules h = elim (Bool-cases (ltb 100 (length given))) [
    | inl many ↦ absurd (cc (simp many at h))
    | inr few ↦
        let through = normalize_rules-Through 0 [] given rules (simp few at h) in
        let same : length rules ≡ length given =
          sym (length-map (λ r. r.pattern) rules)
          ∙ ap length through.patterns
          ∙ length-map (λ r. trim_space r.pattern) given in
        let short : length given ≤ 100 = ground arith in
        (through.usable, through.distinct, omega (arith, same, short), through.patterns)
  ]
