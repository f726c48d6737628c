-- ===== src/Copy/Regular.antt =====
-- What prepareCopyURLs of cmd/cp-url.go lets pass.
use mc.Base.{
  Bool, true, false, ◌&&◌, Option, none, some, List, [], ◌∷◌, ◌≡◌, refl, arith, All, All-append,
}
use mc.Base.Strings.{Bytes, str_eq, contains}
use mc.Base.Strings.Laws.{str_eq_refl}
use mc.Errors.{McError}
use mc.Content.{ClientContent, is_regular}
use mc.Url.{ClientUrl}
use mc.Mirror.Plan.{Urls}
use mc.Copy.World.{World, Stat, found, missing, connected, refused, Client}
use mc.Copy.Guess.{
  CopyUrlsContent, PrepareCopyUrlsOpts, Guess, start, guess_single, guess_many, source_stat,
  CopyUrlsType, type_invalid, type_a, type_b, type_c, type_d, stat_options, guess_copy_url_type,
}
use mc.Copy.Kinds.{
  make_copy_content_type_a, make_copy_content_type_b, make_copy_content_type_c, known_source,
  copy_found, copy_from, copy_into_folder, prepare_copy_urls_type_a, prepare_copy_urls_type_b,
  copies_of, copy_listing, copy_source, prepare_copy_urls_type_c,
}
use mc.Copy.Orders.{
  is_sent, filter_targets, target_of, copies_of_all, prepare_copy_urls_type_d, orders_of, by_type,
  sent_orders, prepare_copy_urls,
}

-- An order is an error, or copies a regular file from one side to the other.
abbrev pub is_order : Bytes → Bytes → Urls → Bool
is_order from alias u = elim u.error [
  | some e ↦ true
  | none ↦ elim u.source_content [
    | none ↦ false
    | some c ↦ is_regular c.mode && (str_eq u.target_alias alias && str_eq u.source_alias from)
  ]
]

abbrev pub AreOrders : Bytes → Bytes → List Urls → Type 0
AreOrders from alias = All (λ u. is_order from alias u ≡ true)

abbrev is_between : Bytes → Bytes → CopyUrlsContent → Bool
is_between from alias cc = str_eq cc.target_alias alias && str_eq cc.source_alias from

module _ (w : World) (o : PrepareCopyUrlsOpts) (from alias : Bytes) where
  type_a-AreOrders :
      (cc : CopyUrlsContent)
      → is_between from alias cc ≡ true
      → is_order from alias (prepare_copy_urls_type_a w o cc) ≡ true
  unfolding prepare_copy_urls_type_a make_copy_content_type_a
  type_a-AreOrders cc h = ground arith

  type_b-AreOrders :
      (cc : CopyUrlsContent)
      → is_between from alias cc ≡ true
      → is_order from alias (prepare_copy_urls_type_b w o cc) ≡ true
  unfolding prepare_copy_urls_type_b copy_into_folder make_copy_content_type_b
      make_copy_content_type_a
  type_b-AreOrders cc h = ground arith

  copies_of-AreOrders :
      (cc : CopyUrlsContent) (client : ClientUrl) (cs : List ClientContent)
      → is_between from alias cc ≡ true
      → AreOrders from alias (copies_of w o cc client cs)
  unfolding copies_of make_copy_content_type_c make_copy_content_type_a
  copies_of-AreOrders cc client [] h = tt
  copies_of-AreOrders cc client (c ∷ cs) h = ground (arith, copies_of-AreOrders cc client cs h)

  copy_listing-AreOrders :
      (cc : CopyUrlsContent) (client : ClientUrl)
      → is_between from alias cc ≡ true
      → AreOrders from alias (copy_listing w o cc client)
  unfolding copy_listing
  copy_listing-AreOrders cc client h = copies_of-AreOrders cc client (w.list _ _) h

  copy_source-AreOrders :
      (cc : CopyUrlsContent) (client : ClientUrl) (c : ClientContent)
      → is_between from alias cc ≡ true
      → AreOrders from alias (copy_source w o cc client c)
  unfolding copy_source
  copy_source-AreOrders cc client c h = ground (arith, copy_listing-AreOrders cc client h)

  copy_found-AreOrders :
      (cc : CopyUrlsContent) (client : ClientUrl) (s : Stat)
      → is_between from alias cc ≡ true
      → AreOrders from alias (copy_found w o cc client s)
  unfolding copy_found
  copy_found-AreOrders cc client (found c) h = copy_source-AreOrders cc client c h
  copy_found-AreOrders cc client (missing e) h = (refl, tt)

  copy_from-AreOrders :
      (cc : CopyUrlsContent) (client : Client)
      → is_between from alias cc ≡ true
      → AreOrders from alias (copy_from w o cc client)
  unfolding copy_from
  copy_from-AreOrders cc (refused e) h = (refl, tt)
  copy_from-AreOrders cc (connected client) h = ground (
    arith,
    copy_found-AreOrders cc client
        (known_source w o cc (stat_options w o cc.source_url [] 0 o.is_zip false)) h,
  )

  copies_of_all-AreOrders :
      (cc : CopyUrlsContent) (urls : List Bytes)
      → is_between from alias cc ≡ true
      → AreOrders from alias (copies_of_all w o cc urls)
  unfolding copies_of_all prepare_copy_urls_type_c
  copies_of_all-AreOrders cc [] h = tt
  copies_of_all-AreOrders cc (url ∷ urls) h =
      All-append _ (copy_from w o (record cc { source_url = url }) (w.new_client url))
        (copies_of_all w o cc urls)
        (copy_from-AreOrders (record cc { source_url = url }) (w.new_client url) h)
        (copies_of_all-AreOrders cc urls h)

filter_targets-AreOrders :
    (from alias : Bytes) (seen : List Bytes) (us : List Urls)
    → AreOrders from alias us
    → AreOrders from alias (filter_targets seen us)
unfolding filter_targets
filter_targets-AreOrders from alias seen [] h = tt
filter_targets-AreOrders from alias seen (u ∷ us) (h, hs) =
    filtered (target_of u) (λ more. filter_targets-AreOrders from alias more us hs)
  where
    filtered :
        (t : Option Bytes)
        → ((more : List Bytes) → AreOrders from alias (filter_targets more us))
        → AreOrders from alias (elim t as (λ _. List Urls) [
          | none ↦ u ∷ filter_targets seen us
          | some t ↦ elim (contains seen t) as (λ _. List Urls) [
            | true ↦ filter_targets seen us
            | false ↦ u ∷ filter_targets (t ∷ seen) us
          ]
        ])
    filtered none rest = (h, rest seen)
    filtered (some t) rest = ground (arith, rest seen, rest (t ∷ seen))

module _ (w : World) (o : PrepareCopyUrlsOpts) where
  guess-alias : (guess_copy_url_type w o).0.target_alias ≡ (w.expand_alias o.target_url).0
  unfolding guess_copy_url_type start guess_single guess_many
  guess-alias = guessed o.more_source_urls (source_stat w o)
    where
      guessed :
          (more : List Bytes) (s : Stat)
          → (elim more as (λ _. Guess) [
            | [] ↦ elim s as (λ _. Guess) [
              | missing e ↦ (start w o, some e)
              | found c ↦ guess_single w o c (record (start w o) { source_content = some c })
            ]
            | ◌∷◌ _ _ ↦ guess_many w o (start w o)
          ]).0.target_alias
            ≡ (w.expand_alias o.target_url).0
      guessed [] (missing e) = refl
      guessed [] (found c) = ground arith
      guessed (url ∷ more) s = ground arith

  guess-source_alias : (guess_copy_url_type w o).0.source_alias ≡ (w.expand_alias o.source_url).0
  unfolding guess_copy_url_type start guess_single guess_many
  guess-source_alias = guessed o.more_source_urls (source_stat w o)
    where
      guessed :
          (more : List Bytes) (s : Stat)
          → (elim more as (λ _. Guess) [
            | [] ↦ elim s as (λ _. Guess) [
              | missing e ↦ (start w o, some e)
              | found c ↦ guess_single w o c (record (start w o) { source_content = some c })
            ]
            | ◌∷◌ _ _ ↦ guess_many w o (start w o)
          ]).0.source_alias
            ≡ (w.expand_alias o.source_url).0
      guessed [] (missing e) = refl
      guessed [] (found c) = ground arith
      guessed (url ∷ more) s = ground arith

  orders_of-AreOrders :
      (from alias : Bytes) (cc : CopyUrlsContent) (e : Option McError)
      → is_between from alias cc ≡ true
      → AreOrders from alias (orders_of w o (cc, e))
  unfolding prepare_copy_urls_type_c prepare_copy_urls_type_d
  orders_of-AreOrders from alias cc (some e) h = (refl, tt)
  orders_of-AreOrders from alias cc none h = typed cc.copy_type
    where
      typed : (t : CopyUrlsType) → AreOrders from alias (by_type w o cc t)
      typed type_invalid = (refl, tt)
      typed type_a = (type_a-AreOrders w o from alias cc h, tt)
      typed type_b = (type_b-AreOrders w o from alias cc h, tt)
      typed type_c = copy_from-AreOrders w o from alias cc (w.new_client cc.source_url) h
      typed type_d =
          filter_targets-AreOrders from alias [] _
            (copies_of_all-AreOrders w o from alias cc (o.source_url ∷ o.more_source_urls) h)

  sent_orders-AreOrders :
      (from alias : Bytes) (us : List Urls)
      → AreOrders from alias us
      → AreOrders from alias (sent_orders w o us)
  unfolding sent_orders
  sent_orders-AreOrders from alias [] h = tt
  sent_orders-AreOrders from alias (u ∷ us) (h, hs) =
      passed (is_sent w o u) (sent_orders-AreOrders from alias us hs)
    where
      passed :
          (b : Option Bool)
          → AreOrders from alias (sent_orders w o us)
          → AreOrders from alias (elim b as (λ _. List Urls) [
            | none ↦ []
            | some true ↦ u ∷ sent_orders w o us
            | some false ↦ sent_orders w o us
          ])
      passed none rest = tt
      passed (some true) rest = (h, rest)
      passed (some false) rest = rest

-- Whatever is found on the two sides, every order that cp gets is an error, or copies a regular
-- file, never a folder or a special file, to the side that the target's alias names; and it reads
-- from the side of the first source's alias, also for a source that has another alias.
pub prepare_copy_urls-AreOrders :
    (w : World) (o : PrepareCopyUrlsOpts)
    → AreOrders
        (w.expand_alias o.source_url).0
        (w.expand_alias o.target_url).0
        (prepare_copy_urls w o)
unfolding prepare_copy_urls
prepare_copy_urls-AreOrders w o =
    let from = (w.expand_alias o.source_url).0 in
    let alias = (w.expand_alias o.target_url).0 in
    sent_orders-AreOrders w o from alias (orders_of w o (guess_copy_url_type w o)) (
      orders_of-AreOrders w o from alias (guess_copy_url_type w o).0 (guess_copy_url_type w o).1
        (rw (guess-alias w o, guess-source_alias w o, str_eq_refl from, str_eq_refl alias) refl))
