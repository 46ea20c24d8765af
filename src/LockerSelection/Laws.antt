-- ===== src/LockerSelection/Laws.antt =====
-- The choice reaches the page that creates the order, and the name of the site this page.
use smart_parcel_locker.Prelude.{
  ℕ, zero, suc, ◌++◌, Text, text, Option, some, List, [], ◌∷◌, map, All, Memᴰ, ok, >>=-eq-ok, ◌≡◌,
  refl, ◌or◌, sym, ◌∙◌, arith,
}
use smart_parcel_locker.Prelude.Int.{pos}
use smart_parcel_locker.Prelude.Number.{
  int, parse_int, parse_int-print_int, to_number_of_IsSafe, IsSafe,
}
use smart_parcel_locker.Prelude.Decimal.{print, print_int}
use smart_parcel_locker.Prelude.Uri.{encode_uri_component, IsUtf16}
use smart_parcel_locker.Prelude.Uri.Decode.{decode_uri_component}
use smart_parcel_locker.Prelude.Uri.Decode.RoundTrip.{decode_uri_component-encode_uri_component}
use smart_parcel_locker.ConfirmPage.{create_input}
use smart_parcel_locker.SiteDetail.{SiteDetailPage, selection_route, site_name}
use smart_parcel_locker.LockerSelection.{
  LockerSelection, size_options, duration_options, start, Event, tap_size, tap_duration, option_at,
  step, run, next,
}

-- The value is that of an option on the page.
abbrev pub IsSize : Text → Type 0
IsSize size = Memᴰ size (map (λ (o : Text × Text). o.0) size_options)

abbrev pub IsDuration : ℕ → Type 0
IsDuration minutes = Memᴰ minutes (map (λ (o : ℕ × Text). o.0) duration_options)

abbrev IsOffered : LockerSelection → Type 0
IsOffered s = IsSize s.size × IsDuration s.duration_minutes

module _ {ℓ κ} {A : Type ℓ} (P : A → Type κ) where
  option_at-All :
      (i : ℕ) (options : List (A × Text)) (default : A)
      → All (λ (o : A × Text). P o.0) options
      → P default
      → P (option_at i options default)
  option_at-All i [] default all h = h
  option_at-All zero ((a, label) ∷ rest) default (here, all) h = here
  option_at-All (suc i) ((a, label) ∷ rest) default (here, all) h =
      option_at-All i rest default all h

sizes-IsSize : All (λ (o : Text × Text). IsSize o.0) size_options
unfolding size_options
sizes-IsSize =
    (Memᴰ.head refl, (Memᴰ.tail (Memᴰ.head refl), (Memᴰ.tail (Memᴰ.tail (Memᴰ.head refl)), tt)))

durations-IsDuration : All (λ (o : ℕ × Text). IsDuration o.0) duration_options
unfolding duration_options
durations-IsDuration = (
  Memᴰ.head refl,
  (
    Memᴰ.tail (Memᴰ.head refl),
    (
      Memᴰ.tail (Memᴰ.tail (Memᴰ.head refl)),
      (Memᴰ.tail (Memᴰ.tail (Memᴰ.tail (Memᴰ.head refl))), tt),
    ),
  ),
)

step-IsOffered : (s : LockerSelection) (e : Event) → IsOffered s → IsOffered (step s e)
unfolding step
step-IsOffered s (tap_size i) (size, duration) =
    (option_at-All IsSize i size_options s.size sizes-IsSize size, duration)
step-IsOffered s (tap_duration i) (size, duration) = (
  size,
  option_at-All IsDuration i duration_options s.duration_minutes durations-IsDuration duration,
)

run-IsOffered : (s : LockerSelection) (es : List Event) → IsOffered s → IsOffered (run s es)
unfolding run
run-IsOffered s [] h = h
run-IsOffered s (e ∷ es) h = run-IsOffered (step s e) es (step-IsOffered s e h)

start-IsOffered :
    (site_id encoded : Option Text) (s : LockerSelection)
    → start site_id encoded ≡ ok s
    → IsOffered s
unfolding start size_options duration_options
start-IsOffered site_id encoded s h =
    let (name, p, q) = >>=-eq-ok (decode_uri_component (encoded or [])) _ h in
    let sized : text "CELL_SIZE_SMALL" ≡ s.size = ground arith in
    let timed : 60 ≡ s.duration_minutes = ground arith in
    (Memᴰ.head (sym sized), Memᴰ.head (sym timed))

-- Each duration on the page is printed and read back.
duration-IsSafe : (minutes : ℕ) → IsDuration minutes → IsSafe (pos minutes)
unfolding duration_options
duration-IsSafe minutes (Memᴰ.head e) = omega arith
duration-IsSafe minutes (Memᴰ.tail (Memᴰ.head e)) = omega arith
duration-IsSafe minutes (Memᴰ.tail (Memᴰ.tail (Memᴰ.head e))) = omega arith
duration-IsSafe minutes (Memᴰ.tail (Memᴰ.tail (Memᴰ.tail (Memᴰ.head e)))) = omega arith
duration-IsSafe minutes (Memᴰ.tail (Memᴰ.tail (Memᴰ.tail (Memᴰ.tail m)))) = elim m [ ]

parse_int-print : (minutes : ℕ) → IsDuration minutes → parse_int (print minutes) ≡ int (pos minutes)
unfolding print_int
parse_int-print minutes h =
    parse_int-print_int (pos minutes)
    ∙ to_number_of_IsSafe (pos minutes) (duration-IsSafe minutes h)

-- After any taps on a page that was opened, the button leads to the page that creates the order, and
-- from the parameters in the address that page makes an order for the encoded id of the site, of
-- the chosen size and time, which are one of the sizes and one of the times on the page.
pub next-create_input :
    (site_id encoded : Option Text) (opened : LockerSelection) (es : List Event) (url : Text)
    → start site_id encoded ≡ ok opened
    → next (run opened es) ≡ ok url
    → (id : Text) × (encode_uri_component (run opened es).site_id ≡ ok id)
      × (url
          ≡ text "/pages/order-confirm/index?siteId="
            ++ (id
                ++ (text "&size="
                    ++ ((run opened es).size
                        ++ (text "&durationMinutes=" ++ print (run opened es).duration_minutes)))))
      × (create_input
            (some id)
            (some (run opened es).size)
            (some (print (run opened es).duration_minutes))
          ≡ record {
            site_id = id;
            size = (run opened es).size;
            duration_minutes = int (pos (run opened es).duration_minutes);
          })
      × IsSize (run opened es).size
      × IsDuration (run opened es).duration_minutes
unfolding next create_input
next-create_input site_id encoded opened es url opens leads =
    let s = run opened es in
    let (size, minutes) = run-IsOffered opened es (start-IsOffered site_id encoded opened opens) in
    let (id, p, q) = >>=-eq-ok (encode_uri_component s.site_id) _ leads in
    (id, p, ground arith, rw (parse_int-print s.duration_minutes minutes), size, minutes)

-- The button of a site's page leads to this page, and from the parameters in the address, handed
-- over as they stand there, the page is opened with the name of the site; its id is the encoded
-- one, since only the name is decoded.
pub selection_route-start :
    (s : SiteDetailPage) (url : Text)
    → IsUtf16 (site_name s.site [])
    → selection_route s ≡ ok url
    → (id : Text) × (name : Text) × (url
        ≡ text "/pages/locker-selection/index?siteId=" ++ (id ++ (text "&siteName=" ++ name)))
      × (encode_uri_component s.site_id ≡ ok id)
      × (start (some id) (some name)
          ≡ ok (record {
            site_id = id;
            site_name = site_name s.site [];
            size = text "CELL_SIZE_SMALL";
            duration_minutes = 60;
          }))
unfolding selection_route start
selection_route-start s url units leads =
    let (id, p, rest) = >>=-eq-ok (encode_uri_component s.site_id) _ leads in
    let (name, q, e) = >>=-eq-ok (encode_uri_component (site_name s.site [])) _ rest in
    (
      id,
      name,
      ground arith,
      p,
      rw (decode_uri_component-encode_uri_component (site_name s.site []) name units q),
    )
