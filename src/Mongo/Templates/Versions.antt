-- ===== src/Mongo/Templates/Versions.antt =====
-- The version of the schema that src/healthassure_messaging/persistence/mongo.py chooses for an alias.
use healthassure_messaging.Base.{
  String, ◌≡◌, refl, ap, Bool, true, false, ◌||◌, List, [], ◌∷◌, any, length, map, All, arith,
  Bool-cases, inl, inr,
}
use healthassure_messaging.Enums.{TemplateParameterType, is_button, is_image, is_sensitive}
use healthassure_messaging.ServiceContracts.{TemplateComponentSpec}
use healthassure_messaging.Mongo.Templates.{contains_type, contains_button, alias_version}
use healthassure_messaging.Mongo.Templates.Accepted.{Accepted-Returns, AllAccepted}
use healthassure_messaging.Mongo.Templates.Components.{Fits, plain, with_image, any_kind}

all_text :
    (ts : List TemplateParameterType) (names : List String)
    → any is_image ts ≡ false
    → any is_sensitive ts ≡ false
    → length ts ≡ length names
    → map (λ n. TemplateParameterType.text) names ≡ ts
all_text [] [] i s h = refl
all_text (TemplateParameterType.text ∷ ts) (n ∷ names) i s h =
    ap (λ x. TemplateParameterType.text ∷ x) (all_text ts names i s (omega (arith, h)))
all_text _ _ i s h = ground arith

fit_any : (cs : List TemplateComponentSpec) → All (Fits 3) cs
fit_any [] = tt
fit_any (c ∷ cs) = (any_kind refl, fit_any cs)

or_false : (a b : Bool) → (a || b) ≡ false → (a ≡ false) × (b ≡ false)
or_false true b h = cc h
or_false false b h = (refl, h)

fit_image : (cs : List TemplateComponentSpec) → contains_button cs ≡ false → All (Fits 2) cs
fit_image [] h = tt
fit_image (c ∷ cs) h =
    let (first, rest) = or_false (is_button c.component_type) (contains_button cs) h in
    (with_image refl first, fit_image cs rest)

fit_plain :
    (cs : List TemplateComponentSpec)
    → AllAccepted cs
    → contains_button cs ≡ false
    → contains_type is_image cs ≡ false
    → contains_type is_sensitive cs ≡ false
    → All (Fits 1) cs
fit_plain [] valid b i s = tt
fit_plain (c ∷ cs) valid b i s =
    let (b0, b1) = or_false (is_button c.component_type) (contains_button cs) b in
    let (i0, i1) = or_false (any is_image c.parameter_types) (contains_type is_image cs) i in
    let (s0, s1) =
      or_false (any is_sensitive c.parameter_types) (contains_type is_sensitive cs) s in
    let p = (Accepted-Returns c).at c valid.0 refl in
    (
      plain refl b0 (all_text c.parameter_types c.parameter_names i0 s0 p.same_length),
      fit_plain cs valid.1 b1 i1 s1,
    )

-- The version of an alias says all of its components.
pub all_fit : (cs : List TemplateComponentSpec) → AllAccepted cs → All (Fits (alias_version cs)) cs
unfolding alias_version
all_fit cs valid = elim (Bool-cases (contains_button cs || contains_type is_sensitive cs)) [
  | inl late ↦ rw late (fit_any cs)
  | inr early ↦
      let (b, s) = or_false (contains_button cs) (contains_type is_sensitive cs) early in
      elim (Bool-cases (contains_type is_image cs)) [
        | inl i ↦ rw (early, i) (fit_image cs b)
        | inr i ↦ rw (early, i) (fit_plain cs valid b i s)
      ]
]
