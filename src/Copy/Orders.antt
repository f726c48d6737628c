-- ===== src/Copy/Orders.antt =====
-- prepareCopyURLsTypeD and prepareCopyURLs of cmd/cp-url.go.
use mc.Base.{Bool, true, false, not, Option, none, some, List, [], ◌∷◌, ◌++◌, if◌then◌else◌}
use mc.Base.Strings.{Bytes, str_eq, contains}
use mc.Errors.{in_unknown, unable_to_guess, invalid_argument}
use mc.Content.{ClientContent, Time}
use mc.Url.{to_string}
use mc.Mirror.Plan.{Urls, error_urls}
use mc.Copy.World.{World}
use mc.Copy.Guess.{
  CopyUrlsType, PrepareCopyUrlsOpts, CopyUrlsContent, Guess, guess_copy_url_type, type_invalid,
  type_a, type_b, type_c, type_d,
}
use mc.Copy.Kinds.{prepare_copy_urls_type_a, prepare_copy_urls_type_b, prepare_copy_urls_type_c}

-- The target of an order; an error has none.
unfoldable pub target_of : Urls → Option Bytes
target_of u = elim u.error [
  | some e ↦ none
  | none ↦ elim u.target_content [ none ↦ none | some t ↦ some (to_string t.url) ]
]

-- Of the orders with one target the first is sent on, and all errors.
unfoldable pub filter_targets : List Bytes → List Urls → List Urls
filter_targets seen [] = []
filter_targets seen (u ∷ us) = elim (target_of u) [
  | none ↦ u ∷ filter_targets seen us
  | some t ↦ elim (contains seen t) [
    | true ↦ filter_targets seen us
    | false ↦ u ∷ filter_targets (t ∷ seen) us
  ]
]

module _ (w : World) (o : PrepareCopyUrlsOpts) where
  -- The loop over the sources of a copy of the kind D, which keeps the other fields.
  unfoldable pub copies_of_all : CopyUrlsContent → List Bytes → List Urls
  copies_of_all cc [] = []
  copies_of_all cc (url ∷ urls) =
      prepare_copy_urls_type_c w o (record cc { source_url = url }) ++ copies_of_all cc urls

  unfoldable pub prepare_copy_urls_type_d : CopyUrlsContent → List Urls
  prepare_copy_urls_type_d cc =
      filter_targets [] (copies_of_all cc (o.source_url ∷ o.more_source_urls))

  abbrev pub by_type : CopyUrlsContent → CopyUrlsType → List Urls
  by_type cc type_invalid = error_urls invalid_argument in_unknown ∷ []
  by_type cc type_a = prepare_copy_urls_type_a w o cc ∷ []
  by_type cc type_b = prepare_copy_urls_type_b w o cc ∷ []
  by_type cc type_c = prepare_copy_urls_type_c w o cc
  by_type cc type_d = prepare_copy_urls_type_d cc

  abbrev pub orders_of : Guess → List Urls
  orders_of (cc, some e) = error_urls (unable_to_guess e) in_unknown ∷ []
  orders_of (cc, none) = by_type cc cc.copy_type

  -- Whether a limit of age leaves an object out; no limit is the empty text.
  abbrev pub left_out : (Time → Bytes → Option Bool) → Bytes → Time → Option Bool
  left_out test limit time = if str_eq limit [] then some false else test time limit

  abbrev pub source_time : Option ClientContent → Time
  source_time none = 0
  source_time (some c) = c.time

  -- Whether an order is sent on; `none` ends the program.
  unfoldable pub is_sent : Urls → Option Bool
  is_sent u = elim u.error [
    | some e ↦ some true
    | none ↦ elim (left_out w.is_older o.older_than (source_time u.source_content)) [
      | none ↦ none
      | some true ↦ some false
      | some false ↦ elim (left_out w.is_newer o.newer_than (source_time u.source_content)) [
        | none ↦ none
        | some newer ↦ some (not newer)
      ]
    ]
  ]

  -- The orders that are sent before the end, or before the program ends.
  unfoldable pub sent_orders : List Urls → List Urls
  sent_orders [] = []
  sent_orders (u ∷ us) = elim (is_sent u) [
    | none ↦ []
    | some true ↦ u ∷ sent_orders us
    | some false ↦ sent_orders us
  ]

  unfoldable pub prepare_copy_urls : List Urls
  prepare_copy_urls = sent_orders (orders_of (guess_copy_url_type w o))
