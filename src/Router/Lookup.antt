-- ===== src/Router/Lookup.antt =====
-- src/Network/Router.h: which handler a method and a target reach.
use ccfolio.Common.{
  ◌&&◌, &&_iff, ap₂, sym, inl, inr, Bool-cases, not_true, ◌≡◌, ◌≢◌, refl, sym, not_true, ap, ◌∙◌,
  [], ◌∷◌, ◌++◌, some, arith, if◌then◌else◌, append_assoc,
}
use ccfolio.Common.Text.{Str, text, str_eq, str_eq_iff}
use ccfolio.Http.{Handler}
use ccfolio.Router.{Routes, key, insert, find, add_route}

-- A method is a token of HTTP and holds no colon.
abbrev pub NoColon : Str → Type 0
NoColon [] = Unit {0}
NoColon (c ∷ s) = (c ≢ b':') × NoColon s

split_eq :
    (m m' p p' : Str)
    → NoColon m
    → NoColon m'
    → m ++ b':' ∷ p ≡ m' ++ b':' ∷ p'
    → (m ≡ m') × (p ≡ p')
split_eq [] [] p p' h h' e = (refl, cc)
split_eq [] (c ∷ m') p p' h h' e = absurd (h'.0 (cc))
split_eq (c ∷ m) [] p p' h h' e = absurd (h.0 (cc))
split_eq (c ∷ m) (d ∷ m') p p' h h' e =
    let (same, rest) = split_eq m m' p p' h.1 h'.1 (cc) in (cc, rest)

-- Two routes have the same key only if they have the same method and the same path.
pub key_injective :
    (m m' p p' : Str) → NoColon m → NoColon m' → key m p ≡ key m' p' → (m ≡ m') × (p ≡ p')
unfolding key text
key_injective m m' p p' h h' e =
    split_eq m m' p p' h h' (sym (append_assoc m (text ":") p) ∙ e ∙ append_assoc m' (text ":") p')

str_eq-key :
    (m m' p p' : Str)
    → NoColon m
    → NoColon m'
    → str_eq (key m p) (key m' p') ≡ (str_eq m m' && str_eq p p')
str_eq-key m m' p p' h h' = elim (Bool-cases (str_eq (key m p) (key m' p'))) [
  | inl e ↦
      let (methods, paths) =
        key_injective m m' p p' h h' ((str_eq_iff (key m p) (key m' p')).0 e) in
      e ∙ sym ((&&_iff _ _).1 ((str_eq_iff m m').1 methods, (str_eq_iff p p').1 paths))
  | inr e ↦
      e
      ∙ sym (
          not_true _ (λ t.
            let (methods, paths) = (&&_iff _ _).0 t in
            let same = ap₂ key ((str_eq_iff m m').0 methods) ((str_eq_iff p p').0 paths) in
            let bad = (str_eq_iff (key m p) (key m' p')).1 same in cc))
]

module _ {D : Type 0} where
  pub find-insert :
      (k j : Str) (handler : Handler D) (routes : Routes D)
      → find j (insert k handler routes) ≡ (if str_eq k j then some handler else find j routes)
  unfolding find insert
  find-insert k j handler [] = refl
  find-insert k j handler ((i, old) ∷ routes) =
      ground (arith, str_eq_iff k j, str_eq_iff i k, str_eq_iff i j, find-insert k j handler routes)

  -- With methods that hold no colon: after `addRoute` a method and path reach the new handler if
  -- they are the route's, also if they had another before, and otherwise what they reached before.
  pub find-add_route :
      (routes : Routes D) (method path m p : Str) (handler : Handler D)
      → NoColon method
      → NoColon m
      → find (key m p) (add_route routes method path handler)
        ≡ (if str_eq method m && str_eq path p then some handler else find (key m p) routes)
  unfolding add_route
  find-add_route routes method path m p handler h h' =
      find-insert (key method path) (key m p) handler routes
      ∙ ap (λ b. if b then some handler else find (key m p) routes)
          (str_eq-key method m path p h h')
