-- ===== src/Dynamic/Select/Order.antt =====
-- When the choice does not depend on the order of the candidates, and when it does. Go visits maps
-- in an order that varies from run to run.
use dynamic_credential_provi.Base.{
  Bool-cases, In, List, Text, [], ap, arith, false, inl, inr, length, refl, sym, text_lt,
  text_lt_antisym, text_lt_asymm, text_lt_irrefl, text_lt_le_trans, true, ◌<◌, ◌↔◌, ◌∙◌, ◌∷◌, ◌≡◌,
  ◌≢◌, ◌≤◌, ◌⊎◌,
}
use dynamic_credential_provi.Dynamic.Select.{Best, start, replaces}
use dynamic_credential_provi.Dynamic.Select.Pick.{
  Candidate, chosen, pick, pick_all, pick_all_origin, pick_all_empty,
}

-- Of two keys the longer is the greater one in the order of texts.
abbrev pub Coherent : List Candidate → Type 0
Coherent cs =
    (c d : Candidate) → In c cs → In d cs → length c.key < length d.key → text_lt c.key d.key ≡ true

abbrev Included : List Candidate → List Candidate → Type 0
Included cs ds = (c : Candidate) → In c cs → In c ds

-- What the loop holds before or after a round over members of `all`.
abbrev Held : List Candidate → Best → Type 0
Held all best = (best ≡ start) ⊎ ((c : Candidate) × In c all × (best ≡ chosen c))

text_lt-start : (k : Text) → text_lt k [] ≡ false
unfolding text_lt
text_lt-start [] = refl
text_lt-start (x ∷ k) = refl

text_lt-longer : (k : Text) → 0 < length k → text_lt [] k ≡ true
unfolding text_lt
text_lt-longer [] h = absurd (omega arith)
text_lt-longer (x ∷ k) h = refl

replaces-below :
    (best : Best) (c : Candidate)
    → replaces best.longest_matched_url c.key ≡ false
    → text_lt best.longest_matched_url c.key ≡ false
unfolding replaces
replaces-below best c h = ground arith

module _ (all : List Candidate) (coherent : Coherent all) where
  Held-coherent :
      (best : Best) (c : Candidate)
      → Held all best
      → In c all
      → length best.longest_matched_url < length c.key
      → text_lt best.longest_matched_url c.key ≡ true
  Held-coherent best c (inl e) i h = rw e (text_lt-longer c.key (rw e at h))
  Held-coherent best c (inr (d, j, e)) i h = rw e (coherent d c j i (rw e at h))

  replaces-above :
      (best : Best) (c : Candidate)
      → Held all best
      → In c all
      → replaces best.longest_matched_url c.key ≡ true
      → text_lt c.key best.longest_matched_url ≡ false
  unfolding replaces
  replaces-above best c held i t =
      ground (arith, Held-coherent best c held i, text_lt_asymm best.longest_matched_url c.key)

  pick-grows :
      (best : Best) (c : Candidate)
      → Held all best
      → In c all
      → (text_lt (pick best c).longest_matched_url best.longest_matched_url ≡ false)
        × (text_lt (pick best c).longest_matched_url c.key ≡ false)
        × Held all (pick best c)
  unfolding pick
  pick-grows best c held i = elim (Bool-cases (replaces best.longest_matched_url c.key)) [
    | inl t ↦ rw t (replaces-above best c held i t, text_lt_irrefl c.key, inr (c, i, refl))
    | inr f ↦ rw f (text_lt_irrefl best.longest_matched_url, replaces-below best c f, held)
  ]

  -- The chosen key is the greatest.
  pick_all-greatest :
      (best : Best) (cs : List Candidate)
      → Held all best
      → Included cs all
      → (text_lt (pick_all best cs).longest_matched_url best.longest_matched_url ≡ false)
        × ((c : Candidate) → In c cs → text_lt (pick_all best cs).longest_matched_url c.key ≡ false)
        × Held all (pick_all best cs)
  unfolding pick_all
  pick_all-greatest best [] held sub =
      (text_lt_irrefl best.longest_matched_url, λ c i. absurd i, held)
  pick_all-greatest best (c ∷ cs) held sub =
      let (up, over, held') = pick-grows best c held (sub c (inl refl)) in
      let (up', over', held'') = pick_all-greatest (pick best c) cs held' (λ d i. sub d (inr i)) in
      (text_lt_le_trans _ _ _ up up', covers over up' over', held'')
    where
      covers :
          (text_lt (pick best c).longest_matched_url c.key ≡ false)
          → text_lt
              (pick_all (pick best c) cs).longest_matched_url
              (pick best c).longest_matched_url
            ≡ false
          → ((d : Candidate)
              → In d cs
              → text_lt (pick_all (pick best c) cs).longest_matched_url d.key ≡ false)
          → (d : Candidate) → In d (c ∷ cs)
          → text_lt (pick_all (pick best c) cs).longest_matched_url d.key ≡ false
      covers over up' over' d (inl e) = rw e (text_lt_le_trans _ _ _ over up')
      covers over up' over' d (inr j) = over' d j

  pub pick_all-longest :
      (c : Candidate) → In c all → length c.key ≤ length (pick_all start all).longest_matched_url
  pick_all-longest c i =
      let (_, over, held) = pick_all-greatest start all (inl refl) (λ d j. j) in
      ground (arith, over c i, Held-coherent (pick_all start all) c held i)

-- No two candidates share a key, but for copies of one.
abbrev pub KeysDetermine : List Candidate → Type 0
KeysDetermine cs = (c d : Candidate) → In c cs → In d cs → c.key ≡ d.key → c ≡ d

-- Whatever the loop holds over some of the candidates is no greater than the choice among all.
pick_all-above :
    (all : List Candidate) (cs : List Candidate) (best : Best)
    → Coherent all
    → Included cs all
    → Held cs best
    → text_lt (pick_all start all).longest_matched_url best.longest_matched_url ≡ false
pick_all-above all cs best coherent sub (inl e) = rw e (text_lt-start _)
pick_all-above all cs best coherent sub (inr (c, i, e)) =
    rw e ((pick_all-greatest all coherent start all (inl refl) (λ d j. j)).1 c (sub c i))

Held-pick_all : (cs : List Candidate) → Held cs (pick_all start cs)
Held-pick_all cs = pick_all_origin start cs

pick_all-eq_key :
    (cs ds : List Candidate)
    → Coherent cs
    → Coherent ds
    → Included cs ds
    → Included ds cs
    → (pick_all start cs).longest_matched_url ≡ (pick_all start ds).longest_matched_url
pick_all-eq_key cs ds hc hd there back =
    text_lt_antisym _ _ (pick_all-above cs ds (pick_all start ds) hc back (Held-pick_all ds))
      (pick_all-above ds cs (pick_all start cs) hd there (Held-pick_all cs))

eq_of_key :
    (cs ds : List Candidate)
    → KeysDetermine cs
    → Included ds cs
    → (pick_all start cs).longest_matched_url ≡ (pick_all start ds).longest_matched_url
    → pick_all start cs ≡ pick_all start ds
eq_of_key cs ds keys back e = elim (Held-pick_all cs) [
  | inl p ↦ p ∙ sym (pick_all_empty ds (sym e ∙ ap (λ (b : Best). b.longest_matched_url) p))
  | inr (c, i, p) ↦ elim (Held-pick_all ds) [
    | inl q ↦ pick_all_empty cs (e ∙ ap (λ (b : Best). b.longest_matched_url) q) ∙ sym q
    | inr (d, j, q) ↦
        let same : c.key ≡ d.key =
          ap (λ (b : Best). b.longest_matched_url) (sym p)
          ∙ e
          ∙ ap (λ (b : Best). b.longest_matched_url) q in
        p ∙ ap chosen (keys c d i (back d j) same) ∙ sym q
  ]
]

-- Under coherent keys the order in which the candidates are met does not matter.
pub pick_all-order :
    (cs ds : List Candidate)
    → Coherent cs
    → KeysDetermine cs
    → ((c : Candidate) → In c cs ↔ In c ds)
    → pick_all start cs ≡ pick_all start ds
pick_all-order cs ds coherent keys same =
    eq_of_key cs ds keys (λ c i. (same c).1 i)
      (pick_all-eq_key cs ds coherent (λ c d i j. coherent c d ((same c).1 i) ((same d).1 j))
        (λ c i. (same c).0 i) (λ c i. (same c).1 i))

-- Of a key and a longer one that is the smaller text, the one met last is chosen.
pub pick_all-last_wins :
    (c d : Candidate)
    → length c.key < length d.key
    → text_lt d.key c.key ≡ true
    → c.key ≢ []
    → (pick_all start (c ∷ d ∷ []) ≡ chosen d) × (pick_all start (d ∷ c ∷ []) ≡ chosen c)
unfolding pick_all pick replaces
pick_all-last_wins c d shorter smaller nonempty = ground arith
