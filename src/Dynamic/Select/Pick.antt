-- ===== src/Dynamic/Select/Pick.antt =====
-- The choice as a fold over the keys that match, and what the fold yields.
use dynamic_credential_provi.Base.{
  Bool-cases, In, List, Text, Text-cases, [], ap, arith, false, if◌then◌else◌, inl, inr, refl,
  text_lt, ◌++◌, ◌∙◌, ◌∷◌, ◌≡◌, ◌≢◌, ◌⊎◌,
}
use dynamic_credential_provi.Api.{AuthConfig, Duration}
use dynamic_credential_provi.Dynamic.Select.{Best, replaces, start}

-- A key that covers the image, with what its response says.
pub record Candidate : Type 0 where
  pub key : Text
  pub auth_config : AuthConfig
  pub cache_duration : Duration

abbrev pub chosen : Candidate → Best
chosen c = record {
  longest_matched_url = c.key;
  auth_config = c.auth_config;
  cache_duration = c.cache_duration;
}

unfoldable pub pick : Best → Candidate → Best
pick best c = if replaces best.longest_matched_url c.key then chosen c else best

unfoldable pub pick_all : Best → List Candidate → Best
pick_all best [] = best
pick_all best (c ∷ cs) = pick_all (pick best c) cs

pub pick_all-append :
    (best : Best) (cs ds : List Candidate)
    → pick_all best (cs ++ ds) ≡ pick_all (pick_all best cs) ds
unfolding pick_all
pick_all-append best [] ds = refl
pick_all-append best (c ∷ cs) ds = pick_all-append (pick best c) cs ds

-- The result is where the fold began, or one of the candidates.
pub pick_all_origin :
    (best : Best) (cs : List Candidate)
    → (pick_all best cs ≡ best) ⊎ ((c : Candidate) × In c cs × (pick_all best cs ≡ chosen c))
unfolding pick_all pick
pick_all_origin best [] = inl refl
pick_all_origin best (c ∷ cs) = elim (pick_all_origin (pick best c) cs) [
  | inr (d, here, e) ↦ inr (d, inr here, e)
  | inl e ↦ elim (Bool-cases (replaces best.longest_matched_url c.key)) [
    | inl t ↦ inr (c, inl refl, e ∙ rw t)
    | inr f ↦ inl (e ∙ rw f)
  ]
]

text_lt-nil : (a : Text) → text_lt a [] ≡ false
unfolding text_lt
text_lt-nil [] = refl
text_lt-nil (x ∷ a) = refl

-- An empty key replaces nothing.
replaces-nil : (a : Text) → replaces a [] ≡ false
unfolding replaces
replaces-nil a = ground (arith, text_lt-nil a)

pick_nonempty :
    (best : Best) (c : Candidate)
    → best.longest_matched_url ≢ []
    → (pick best c).longest_matched_url ≢ []
unfolding pick
pick_nonempty best c h = ground (arith, replaces-nil best.longest_matched_url)

pick_takes : (best : Best) (c : Candidate) → c.key ≢ [] → (pick best c).longest_matched_url ≢ []
unfolding pick replaces
pick_takes best c h = ground arith

-- Once a key is chosen, the chosen key is never empty again.
pick_all_nonempty :
    (best : Best) (cs : List Candidate)
    → best.longest_matched_url ≢ []
    → (pick_all best cs).longest_matched_url ≢ []
unfolding pick_all
pick_all_nonempty best [] h = h
pick_all_nonempty best (c ∷ cs) h = pick_all_nonempty (pick best c) cs (pick_nonempty best c h)

-- A candidate whose key is not empty is enough for a key to be chosen.
pub pick_all_finds :
    (best : Best) (cs : List Candidate) (c : Candidate)
    → In c cs
    → c.key ≢ []
    → (pick_all best cs).longest_matched_url ≢ []
unfolding pick_all
pick_all_finds best (d ∷ cs) c (inl e) h =
    pick_all_nonempty (pick best d) cs (pick_takes best d (rw e at h))
pick_all_finds best (d ∷ cs) c (inr i) h = pick_all_finds (pick best d) cs c i h
pick_all_finds best [] c i h = absurd i

pick-start : (c : Candidate) → c.key ≡ [] → pick start c ≡ start
unfolding pick
pick-start c e = ground (arith, replaces-nil [])

pick_all_empty_from :
    (best : Best) (cs : List Candidate)
    → best ≡ start
    → (pick_all best cs).longest_matched_url ≡ []
    → pick_all best cs ≡ start
unfolding pick_all
pick_all_empty_from best [] e h = e
pick_all_empty_from best (c ∷ cs) e h = elim (Text-cases c.key) [
  | inl q ↦ pick_all_empty_from (pick best c) cs (ap (λ b. pick b c) e ∙ pick-start c q) h
  | inr n ↦ absurd (pick_all_nonempty (pick best c) cs (pick_takes best c n) h)
]

-- While the chosen key is empty nothing is chosen.
pub pick_all_empty :
    (cs : List Candidate) → (pick_all start cs).longest_matched_url ≡ [] → pick_all start cs ≡ start
pick_all_empty cs h = pick_all_empty_from start cs refl h
