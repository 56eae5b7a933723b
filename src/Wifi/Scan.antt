-- ===== src/Wifi/Scan.antt =====
-- The list of networks that `wifi_manager_scan` of esp32-firmware/main/wifi/wifi_manager.c writes as
-- JSON, into an array of `max_len` bytes. What the driver finds is an argument.
use mathlib.Core.List.{append_assoc}
use iot_yk.Base.{lt→ltb}
use mathlib.Core.List.{append-nil}
use iot_yk.Base.{length-take, take_le}
use iot_yk.Base.{
  ℕ, zero, suc, ◌+◌, ◌-◌, ◌*◌, ◌/◌, ◌%◌, ◌^◌, ◌≤◌, ◌<◌, ◌≡◌, refl, ap, ◌∙◌, sym, Bool, true, false,
  ◌&&◌, Option, none, some, List, [], ◌∷◌, ◌++◌, ltb, ◌==◌, if◌then◌else◌, length, length-append,
  take, arith,
}
use iot_yk.Base.Bytes.{Run, done, fault, ◌>>=◌}
use iot_yk.Io.{codes}

-- An SSID of up to 32 bytes, as a string, and the 8 bits of the signal strength.
pub record Network : Type 0 where
  pub ssid : List ℕ
  pub rssi : ℕ

-- `%u` of a number below 1000.
unfoldable pub digits : ℕ → List ℕ
digits n =
    if ltb n 10
    then (b'0' + n) ∷ []
    else if ltb n 100
    then (b'0' + n / 10) ∷ (b'0' + n % 10) ∷ []
    else (b'0' + n / 100) ∷ (b'0' + n / 10 % 10) ∷ (b'0' + n % 10) ∷ []

-- `%d` of an `int8_t`.
unfoldable pub signed_digits : ℕ → List ℕ
signed_digits rssi = if ltb rssi 128 then digits rssi else b'-' ∷ digits (256 - rssi)

-- `snprintf` behind `offset` bytes of the array: what it leaves there, cut to the room and ended by a
-- zero. The room is a `size_t`.
unfoldable pub print_at : ℕ → List ℕ → List ℕ → Run (List ℕ)
print_at max_len before text =
    let room = (max_len + 2 ^ 32 - length before) % 2 ^ 32 in
    let written = take (room - 1) text in
    if room == 0
    then done []
    else if ltb (length before + length written) max_len
    then done written
    else fault

unfoldable pub entry : Network → Bool → List ℕ
unfolding codes signed_digits
entry network more =
    codes "{\"ssid\":\""
    ++ (network.ssid
        ++ (codes "\",\"rssi\":"
            ++ (signed_digits network.rssi ++ (b'}' ∷ (if more then b',' ∷ [] else [])))))

-- `before` is the text up to `offset`; an entry that does not fit is written over.
unfoldable pub scan_loop : ℕ → List ℕ → List Network → Run (List ℕ)
scan_loop max_len before [] = done before
scan_loop max_len before (network ∷ networks) =
    let text = entry network (ltb 0 (length networks)) in
    let room = (max_len + 2 ^ 32 - length before) % 2 ^ 32 in
    print_at max_len before text >>= λ written.
    scan_loop max_len
      (if ltb 0 (length text) && ltb (length text) room then before ++ text else before) networks

unfoldable pub scan_head : List ℕ
unfolding codes
scan_head = codes "{\"scan_results\":["

unfoldable pub empty_list : List ℕ
unfolding codes
empty_list = codes "{\"scan_results\":[]}"

-- The text in `json_out`, and the number that is answered.
unfoldable pub scan_found : ℕ → List Network → Run (List ℕ × ℕ)
unfolding scan_head
scan_found max_len networks = print_at max_len [] scan_head >>= λ head.
    scan_loop max_len scan_head networks >>= λ before.
    print_at max_len before (b']' ∷ b'}' ∷ []) >>= λ tail. done (before ++ tail, length networks)

-- `none` is a scan that does not start; `room` is whether `malloc` has room for the list.
unfoldable pub wifi_manager_scan : ℕ → Option (List Network) → Bool → Run (List ℕ × ℕ)
unfolding empty_list
wifi_manager_scan max_len none room = print_at max_len [] empty_list >>= λ text. done (text, 0)
wifi_manager_scan max_len (some []) room = print_at max_len [] empty_list >>= λ text. done (text, 0)
wifi_manager_scan max_len (some (network ∷ networks)) room =
    if room
    then scan_found max_len (take 10 (network ∷ networks))
    else (print_at max_len [] empty_list >>= λ text. done (text, 0))

-- A signal strength as a number with its sign: 128 and above stand for 128 below zero and up.
abbrev pub strength : ℕ → List ℕ
strength rssi = if ltb rssi 128 then digits rssi else b'-' ∷ digits (256 - rssi)

-- One network, as it should be.
unfoldable pub spelled : Network → List ℕ
unfolding codes
spelled network =
    codes "{\"ssid\":\""
    ++ (network.ssid ++ (codes "\",\"rssi\":" ++ (strength network.rssi ++ (b'}' ∷ []))))

-- The list as it should be: a comma stands between two networks.
abbrev pub entries : List Network → List ℕ
entries [] = []
entries (network ∷ []) = spelled network
entries (network ∷ other ∷ networks) = spelled network ++ b',' ∷ entries (other ∷ networks)

-- What the loop prints.
abbrev printed : List Network → List ℕ
printed [] = []
printed (network ∷ networks) = entry network (ltb 0 (length networks)) ++ printed networks

entry_end :
    (network : Network) (more : Bool)
    → entry network more ≡ spelled network ++ (if more then b',' ∷ [] else [])
unfolding entry spelled signed_digits codes
entry_end network more =
    let rest : List ℕ = if more then b',' ∷ [] else [] in
    ap (codes "{\"ssid\":\"" ++◌) (
      ap (network.ssid ++◌) (
        ap (codes "\",\"rssi\":" ++◌) (sym (append_assoc (strength network.rssi) (b'}' ∷ []) rest))
        ∙ sym (append_assoc (codes "\",\"rssi\":") (strength network.rssi ++ (b'}' ∷ [])) rest))
      ∙ sym (
          append_assoc network.ssid (codes "\",\"rssi\":" ++ (strength network.rssi ++ (b'}' ∷ [])))
            rest))

printed-entries : (networks : List Network) → printed networks ≡ entries networks
printed-entries [] = refl
printed-entries (network ∷ []) =
    append-nil (entry network false) ∙ entry_end network false ∙ append-nil (spelled network)
printed-entries (network ∷ other ∷ networks) =
    let some_more = lt→ltb 0 (length (other ∷ networks)) (omega arith) in
    rw (some_more, entry_end network true, printed-entries (other ∷ networks))
      (append_assoc (spelled network) (b',' ∷ []) (entries (other ∷ networks)))

abbrev pub AllNetworks : List Network → Type 0
AllNetworks [] = Unit
AllNetworks (network ∷ networks) = (length network.ssid ≤ 32) × AllNetworks networks

length-digits : (n : ℕ) → length (digits n) ≤ 3
unfolding digits
length-digits n = ground arith

length-signed_digits : (n : ℕ) → length (signed_digits n) ≤ 4
unfolding signed_digits
length-signed_digits n = ground (arith, length-digits n, length-digits (256 - n))

length-entry :
    (network : Network) (more : Bool)
    → length network.ssid ≤ 32
    → (0 < length (entry network more)) × (length (entry network more) ≤ 56)
unfolding entry codes
length-entry network more h =
    let digits_fit = length-signed_digits network.rssi in
    let end : List ℕ = if more then b',' ∷ [] else [] in
    let end_fits : length end ≤ 1 = ground arith in
    let number = length-append (signed_digits network.rssi) (b'}' ∷ end) in
    let name =
      length-append network.ssid
        (codes "\",\"rssi\":" ++ (signed_digits network.rssi ++ (b'}' ∷ end))) in
    omega (arith, name, number, digits_fit, end_fits)

module _ (max_len : ℕ) (word : max_len < 2 ^ 32) where
  room_is :
      (before : List ℕ)
      → length before < max_len
      → (max_len + 2 ^ 32 - length before) % 2 ^ 32 ≡ max_len - length before
  room_is before h = omega arith

  print_at_fits :
      (before text : List ℕ)
      → length before + length text < max_len
      → print_at max_len before text ≡ done text
  unfolding print_at
  print_at_fits before text h =
      let room = room_is before (omega arith) in
      let some_room : (max_len - length before == 0) ≡ false = ground arith in
      let whole = take_le (max_len - length before - 1) text (omega arith) in
      let inside = lt→ltb (length before + length text) max_len h in
      rw (room, some_room, whole, inside) refl

  scan_loop-printed :
      (before : List ℕ) (networks : List Network)
      → AllNetworks networks
      → length before + 56 * length networks + 2 < max_len
      → scan_loop max_len before networks ≡ done (before ++ printed networks)
  unfolding scan_loop
  scan_loop-printed before [] n h = rw (append-nil before) refl
  scan_loop-printed before (network ∷ networks) n h =
      let text = entry network (ltb 0 (length networks)) in
      let (pos, short) = length-entry network (ltb 0 (length networks)) n.0 in
      let wrote = print_at_fits before text (omega arith) in
      let room = room_is before (omega arith) in
      let some_text = lt→ltb 0 (length text) pos in
      let fits = lt→ltb (length text) (max_len - length before) (omega arith) in
      let rest =
        scan_loop-printed (before ++ text) networks n.1
          (omega (arith, length-append {0} before text)) in
      rw (wrote, room, some_text, fits, rest)
        (ap done (append_assoc before text (printed networks)))

  length-printed :
      (networks : List Network)
      → AllNetworks networks
      → length (printed networks) ≤ 56 * length networks
  length-printed [] n = omega arith
  length-printed (network ∷ networks) n =
      let (pos, short) = length-entry network (ltb 0 (length networks)) n.0 in
      omega (
        arith,
        short,
        length-printed networks n.1,
        length-append {0} (entry network (ltb 0 (length networks))) (printed networks),
      )

take-AllNetworks :
    (n : ℕ) (networks : List Network) → AllNetworks networks → AllNetworks (take n networks)
take-AllNetworks zero networks h = tt
take-AllNetworks (suc n) [] h = tt
take-AllNetworks (suc n) (network ∷ networks) h = (h.0, take-AllNetworks n networks h.1)

-- Where the array has at least 580 bytes and every SSID at most 32: a scan that starts, finds a
-- network, and has room for the list on the heap, writes without leaving the array the first ten
-- networks found, in the order of the driver: the opening `{"scan_results":[`, for each network an
-- object with its SSID, as it stands and not escaped, and its signal strength, a comma between two
-- objects and none behind the last, and `]}`. It answers the number of networks listed.
pub wifi_manager_scan-lists :
    (max_len : ℕ) (network : Network) (networks : List Network)
    → 580 ≤ max_len
    → max_len < 2 ^ 32
    → AllNetworks (network ∷ networks)
    → wifi_manager_scan max_len (some (network ∷ networks)) true
      ≡ done (
        (codes "{\"scan_results\":[" ++ entries (take 10 (network ∷ networks))) ++ b']' ∷ b'}' ∷ [],
        length (take 10 (network ∷ networks)),
      )
unfolding wifi_manager_scan scan_found scan_head
wifi_manager_scan-lists max_len network networks room word n =
    let found : List Network = take 10 (network ∷ networks) in
    let few : length found ≤ 10 = omega (arith, length-take {0} 10 (network ∷ networks)) in
    let all = take-AllNetworks 10 (network ∷ networks) n in
    let head_size : length scan_head ≡ 17 = unfold scan_head codes in refl in
    let head = print_at_fits max_len word [] scan_head (omega arith) in
    let listed = scan_loop-printed max_len word scan_head found all (omega arith) in
    let text = length-append scan_head (printed found) in
    let tail =
      print_at_fits max_len word (scan_head ++ printed found) (b']' ∷ b'}' ∷ [])
        (omega (arith, text, length-printed max_len word found all)) in
    rw (head, listed, tail, printed-entries found) refl
