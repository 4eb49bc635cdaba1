-- ===== src/Wire/Framing.antt =====
-- Commands written and read back.
use golang_blockchain.Prelude.{
  ℕ, zero, suc, ◌+◌, ◌≤◌, ◌<◌, ◌≡◌, ◌≢◌, refl, sym, ap, ◌∙◌, [], ◌∷◌, ◌++◌, Bytes, All, length, set,
  take, drop, length-append, length-drop, take-append_self, append_assoc, append-nil, arith, ltb,
  leb, ◌==◌, true, false, ◌%◌, if◌then◌else◌,
}
use golang_blockchain.Run.{ok, panic, index_out_of_range, Returns}
use golang_blockchain.Wallet.{slice}
use golang_blockchain.Wire.{
  command_length, no_command, decode_rune, put_chars, cmd_to_bytes, bytes_to_cmd, extract_cmd,
}

set-append : (done z : Bytes) (y c : ℕ) → set (done ++ y ∷ z) (length done) c ≡ done ++ c ∷ z
set-append [] z y c = refl
set-append (d ∷ done) z y c = ap (λ l. d ∷ l) (set-append done z y c)

length_next : (done : Bytes) (c : ℕ) → length done + 1 ≡ length (done ++ c ∷ [])
length_next done c = omega (arith, length-append done (c ∷ []))

-- an ASCII character is one rune, and is written as it is
put_chars-ascii :
    (i c : ℕ) (cs bytes : Bytes)
    → c < 128
    → put_chars i 0 (c ∷ cs) bytes ≡ (
        if ltb i (length bytes)
        then put_chars (i + 1) 0 cs (set bytes i c)
        else panic index_out_of_range)
unfolding put_chars decode_rune
put_chars-ascii i c cs bytes h = rw (ascii, whole) refl
  where
    ascii : ltb c 128 ≡ true
    ascii = ground (arith, h)

    whole : c % 256 ≡ c
    whole = omega (arith, h)

put_chars_fit :
    (done cs z : Bytes)
    → All (λ c. c < 128) cs
    → length cs ≤ length z
    → put_chars (length done) 0 cs (done ++ z) ≡ ok (done ++ (cs ++ drop (length cs) z))
unfolding put_chars
put_chars_fit done [] z low h = refl
put_chars_fit done (c ∷ cs) [] low h = absurd (omega (arith, h))
put_chars_fit done (c ∷ cs) (y ∷ z) low h =
    rw
      (
        put_chars-ascii _ c cs _ low.0,
        room,
        set-append done z y c,
        length_next done c,
        sym (append_assoc done (c ∷ []) z),
      )
      (put_chars_fit (done ++ c ∷ []) cs z low.1 (omega (arith, h))
        ∙ ap ok (append_assoc done (c ∷ []) (cs ++ drop (length cs) z)))
  where
    room : ltb (length done) (length (done ++ y ∷ z)) ≡ true
    room = ground (arith, length-append done (y ∷ z))

bytes_to_cmd-append :
    (a b : Bytes) → All (λ c. c ≢ 0) a → bytes_to_cmd (a ++ b) ≡ a ++ bytes_to_cmd b
unfolding bytes_to_cmd
bytes_to_cmd-append [] b h = refl
bytes_to_cmd-append (c ∷ a) b (h, hs) = rw nonzero (ap (λ l. c ∷ l) (bytes_to_cmd-append a b hs))
  where
    nonzero : (c == 0) ≡ false
    nonzero = ground (arith, h)

bytes_to_cmd-zeros : (n : ℕ) (z : Bytes) → All (λ c. c ≡ 0) z → bytes_to_cmd (drop n z) ≡ []
unfolding bytes_to_cmd
bytes_to_cmd-zeros zero [] h = refl
bytes_to_cmd-zeros zero (c ∷ z) (h, hs) = rw h (bytes_to_cmd-zeros zero z hs)
bytes_to_cmd-zeros (suc n) [] h = refl
bytes_to_cmd-zeros (suc n) (c ∷ z) (h, hs) = bytes_to_cmd-zeros n z hs

no_command_zeros : All (λ c. c ≡ 0) no_command
no_command_zeros = (
  refl,
  (refl, (refl, (refl, (refl, (refl, (refl, (refl, (refl, (refl, (refl, (refl, tt))))))))))),
)

-- A command of at most 12 ASCII characters, none of them 0, is written in exactly 12 bytes; in
-- front of any payload, whatever stands behind the request, `ExtractCmd` finds these, and
-- `BytesToCmd` reads the command back.
pub bytes_to_cmd-cmd_to_bytes :
    (cmd payload behind : Bytes)
    → length cmd ≤ command_length
    → All (λ c. c ≢ 0) cmd
    → All (λ c. c < 128) cmd
    → Returns (cmd_to_bytes cmd) (λ head.
      (length head ≡ command_length)
      × (extract_cmd (head ++ payload) behind ≡ ok head)
      × (bytes_to_cmd head ≡ cmd))
unfolding cmd_to_bytes extract_cmd slice
bytes_to_cmd-cmd_to_bytes cmd payload behind h nonzero ascii =
    let head = cmd ++ drop (length cmd) no_command in
    let size : length head ≡ 12 = omega (
      arith,
      length-append cmd (drop (length cmd) no_command),
      length-drop (length cmd) no_command,
      h,
    ) in
    let fits : leb 12 (length ((head ++ payload) ++ behind)) ≡ true =
      ground (arith, size, length-append (head ++ payload) behind, length-append head payload) in
    (
      head,
      put_chars_fit [] cmd no_command ascii h,
      (
        size,
        rw fits (
            ap ok (
              ap (take 12) (append_assoc head payload behind)
              ∙ ap (λ (n : ℕ). take n (head ++ (payload ++ behind))) (sym size)
              ∙ take-append_self head (payload ++ behind))),
        bytes_to_cmd-append cmd (drop (length cmd) no_command) nonzero
            ∙ ap (λ l. cmd ++ l) (bytes_to_cmd-zeros (length cmd) no_command no_command_zeros)
            ∙ append-nil cmd,
      ),
    )

put_chars_overrun :
    (done cs z : Bytes)
    → All (λ c. c < 128) cs
    → length z < length cs
    → put_chars (length done) 0 cs (done ++ z) ≡ panic index_out_of_range
unfolding put_chars
put_chars_overrun done [] z low h = absurd (omega (arith, h))
put_chars_overrun done (c ∷ cs) [] low h =
    rw (put_chars-ascii _ c cs _ low.0, append-nil done) (rw full refl)
  where
    full : ltb (length done) (length done) ≡ false
    full = ground arith
put_chars_overrun done (c ∷ cs) (y ∷ z) low h =
    rw
      (
        put_chars-ascii _ c cs _ low.0,
        room,
        set-append done z y c,
        length_next done c,
        sym (append_assoc done (c ∷ []) z),
      )
      (put_chars_overrun (done ++ c ∷ []) cs z low.1 (omega (arith, h)))
  where
    room : ltb (length done) (length (done ++ y ∷ z)) ≡ true
    room = ground (arith, length-append done (y ∷ z))

-- `CmdToBytes` panics on every longer command of ASCII characters.
pub cmd_to_bytes_overrun :
    (cmd : Bytes)
    → All (λ c. c < 128) cmd
    → command_length < length cmd
    → cmd_to_bytes cmd ≡ panic index_out_of_range
unfolding cmd_to_bytes
cmd_to_bytes_overrun cmd ascii h = put_chars_overrun [] cmd no_command ascii h
