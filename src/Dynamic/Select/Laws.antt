-- ===== src/Dynamic/Select/Laws.antt =====
-- Where the chosen credentials come from, and how the choice depends on the visiting order.
use dynamic_credential_provi.Base.{
  All, All-of_In, In, List, Text, Text-cases, [], ap, arith, bind-ok, false, inl, inr, length, ok,
  ok-injective, pos, sym, text_eq_iff, text_lt, true, ◌<◌, ◌↔◌, ◌∙◌, ◌∷◌, ◌≡◌, ◌≢◌, ◌≤◌,
}
use dynamic_credential_provi.Dynamic.Provider.{Provider, Convert, IsFaithful}
use dynamic_credential_provi.Dynamic.Select.Pick.{
  Candidate, pick_all_origin, pick_all, pick_all_finds, pick_all_empty, chosen,
}
use dynamic_credential_provi.Api.{no_auth}
use dynamic_credential_provi.Dynamic.Select.Candidates.{
  all_candidates, get_credentials_for_image-all_candidates,
}
use dynamic_credential_provi.Urlglobber.Url.{UrlLib}
use dynamic_credential_provi.Dynamic.Select.{Found, finish, start, get_credentials_for_image, Best}
use dynamic_credential_provi.Dynamic.Select.Order.{
  pick_all-order, KeysDetermine, Coherent, pick_all-longest, pick_all-last_wins,
}
use dynamic_credential_provi.Dynamic.Select.Offered.{Offers, all_candidates-Offers}

finish_found :
    (best : Best) (r : Found) → finish best ≡ r → r.found ≡ true → best.longest_matched_url ≢ []
finish_found best r e f n = ground (arith, text_eq_iff best.longest_matched_url [])

finish_not_found :
    (best : Best) (r : Found) → finish best ≡ r → r.found ≡ false → best.longest_matched_url ≡ []
finish_not_found best r e f = ground (arith, text_eq_iff best.longest_matched_url [])

finish-chosen :
    (d : Candidate)
    → d.key ≢ []
    → finish (chosen d)
      ≡ record { auth_config = d.auth_config; cache_duration = d.cache_duration; found = true }
finish-chosen d n = ground (arith, text_eq_iff d.key [])

key-nil :
    (cs : List Candidate) (c : Candidate)
    → In c cs
    → (pick_all start cs).longest_matched_url ≡ []
    → c.key ≡ []
key-nil cs c i e = elim (Text-cases c.key) [
  | inl q ↦ q
  | inr n ↦ absurd (pick_all_finds start cs c i n e)
]

module _ (lib : UrlLib) (convert : Convert) (img : Text) where
  module _ (faithful : IsFaithful convert) (providers : List Provider) where
    found-candidates :
        (r : Found)
        → get_credentials_for_image lib convert img providers ≡ ok r
        → (cs : List Candidate) × (all_candidates lib convert img providers ≡ ok cs)
          × (finish (pick_all start cs) ≡ r)
    found-candidates r e =
        let (cs, p, q) =
          bind-ok (all_candidates lib convert img providers) _ (
            sym (get_credentials_for_image-all_candidates lib convert img faithful providers)
            ∙ e) in
        (cs, p, ok-injective q)

    -- With faithful conversions, credentials that getCredentialsForImage finds were listed by one
    -- of the providers under a key that is not empty and covers the image, and their duration is
    -- that response's, or else the provider's.
    pub get_credentials_for_image-Offers :
        (r : Found)
        → get_credentials_for_image lib convert img providers ≡ ok r
        → r.found ≡ true
        → (prov : Provider) × (c : Candidate) × In prov providers
          × Offers lib img prov c
          × (c.key ≢ [])
          × (r.auth_config ≡ c.auth_config)
          × (r.cache_duration ≡ c.cache_duration)
    get_credentials_for_image-Offers r e f =
        let (cs, p, q) = found-candidates r e in
        elim (pick_all_origin start cs) [
          | inl s ↦
              absurd (
                finish_found (pick_all start cs) r q f (ap (λ (b : Best). b.longest_matched_url) s))
          | inr (c, i, t) ↦
              let (prov, j, o) = all_candidates-Offers lib convert img providers cs c p i in
              (
                prov,
                c,
                j,
                o,
                λ n.
                    finish_found (pick_all start cs) r q f
                      (ap (λ (b : Best). b.longest_matched_url) t ∙ n),
                sym (ap (λ (x : Found). x.auth_config) q) ∙ ap (λ (b : Best). b.auth_config) t,
                sym (ap (λ (x : Found). x.cache_duration) q)
                    ∙ ap (λ (b : Best). b.cache_duration) t,
              )
        ]

    -- With faithful conversions, where nothing is found, no key that is not empty covers the image,
    -- and the answer is the zero credentials and duration.
    pub get_credentials_for_image-not_found :
        (r : Found) (cs : List Candidate)
        → get_credentials_for_image lib convert img providers ≡ ok r
        → all_candidates lib convert img providers ≡ ok cs
        → r.found ≡ false
        → (r.auth_config ≡ no_auth) × (r.cache_duration ≡ pos 0) × All (λ c. c.key ≡ []) cs
    get_credentials_for_image-not_found r cs e p f =
        let (ds, p', q') = found-candidates r e in
        let q : finish (pick_all start cs) ≡ r =
          ap (λ xs. finish (pick_all start xs)) (ok-injective (sym p ∙ p')) ∙ q' in
        let none_left : (pick_all start cs).longest_matched_url ≡ [] = finish_not_found _ r q f in
        let s : pick_all start cs ≡ start = pick_all_empty cs none_left in
        (
          sym (ap (λ (x : Found). x.auth_config) q) ∙ ap (λ (b : Best). b.auth_config) s,
          sym (ap (λ (x : Found). x.cache_duration) q) ∙ ap (λ (b : Best). b.cache_duration) s,
          All-of_In cs (λ c i. key-nil cs c i none_left),
        )

    -- With faithful conversions, if of any two keys that cover the image the longer is the greater
    -- text and one of them is not empty, the credentials found are those of a key that is as long
    -- as any of them.
    pub get_credentials_for_image-longest :
        (r : Found) (cs : List Candidate) (c : Candidate)
        → get_credentials_for_image lib convert img providers ≡ ok r
        → all_candidates lib convert img providers ≡ ok cs
        → Coherent cs
        → In c cs
        → c.key ≢ []
        → (d : Candidate) × In d cs
          × (length c.key ≤ length d.key)
          × (r ≡ record {
            auth_config = d.auth_config;
            cache_duration = d.cache_duration;
            found = true;
          })
    get_credentials_for_image-longest r cs c e p coherent i n =
        let (ds, p', q') = found-candidates r e in
        let q : finish (pick_all start cs) ≡ r =
          ap (λ xs. finish (pick_all start xs)) (ok-injective (sym p ∙ p')) ∙ q' in
        let some_key : (pick_all start cs).longest_matched_url ≢ [] =
          pick_all_finds start cs c i n in
        elim (pick_all_origin start cs) [
          | inl s ↦ absurd (some_key (ap (λ (b : Best). b.longest_matched_url) s))
          | inr (d, j, t) ↦
              let t' = ap (λ (b : Best). b.longest_matched_url) t in
              (
                d,
                j,
                rw t' at (pick_all-longest cs coherent c i),
                sym q ∙ ap finish t ∙ finish-chosen d (λ m. some_key (t' ∙ m)),
              )
        ]

    -- With faithful conversions, if of any two covering keys the longer is the greater text, and
    -- equal keys have equal entries, the answer is the same whatever order the maps are visited in.
    pub get_credentials_for_image-order :
        (providers' : List Provider) (cs ds : List Candidate)
        → all_candidates lib convert img providers ≡ ok cs
        → all_candidates lib convert img providers' ≡ ok ds
        → Coherent cs
        → KeysDetermine cs
        → ((c : Candidate) → In c cs ↔ In c ds)
        → get_credentials_for_image lib convert img providers
          ≡ get_credentials_for_image lib convert img providers'
    get_credentials_for_image-order providers' cs ds p q coherent keys same =
        rw
          (
            get_credentials_for_image-all_candidates lib convert img faithful providers,
            get_credentials_for_image-all_candidates lib convert img faithful providers',
            p,
            q,
          )
          (ap (λ b. ok (finish b)) (pick_all-order cs ds coherent keys same))

    -- With faithful conversions, where of the only two covering keys the longer one is the smaller
    -- text, the key visited last wins, be it the shorter one.
    pub get_credentials_for_image-last_wins :
        (providers' : List Provider) (c d : Candidate)
        → all_candidates lib convert img providers ≡ ok (c ∷ d ∷ [])
        → all_candidates lib convert img providers' ≡ ok (d ∷ c ∷ [])
        → c.key ≢ []
        → length c.key < length d.key
        → text_lt d.key c.key ≡ true
        → (get_credentials_for_image lib convert img providers ≡ ok (finish (chosen d)))
          × (get_credentials_for_image lib convert img providers' ≡ ok (finish (chosen c)))
    get_credentials_for_image-last_wins providers' c d p q n shorter smaller =
        let (first, second) = pick_all-last_wins c d shorter smaller n in
        (
          rw (get_credentials_for_image-all_candidates lib convert img faithful providers, p)
              (ap (λ b. ok (finish b)) first),
          rw (get_credentials_for_image-all_candidates lib convert img faithful providers', q)
              (ap (λ b. ok (finish b)) second),
        )
