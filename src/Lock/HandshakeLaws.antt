-- ===== src/Lock/HandshakeLaws.antt =====
-- When the handshake hands a key to the plain session, and which.
use yalexs_ble.Prelude.{
  ℕ, ◌≡◌, refl, ◌≤◌, ◌<◌, Bool, true, false, none, some, List, [], ◌∷◌, length, slice, replicate,
  ◌==◌, ◌&&◌, if◌then◌else◌, drop, length-take, length-drop, arith, ◌++◌, Bool-cases, inl, inr,
}
use yalexs_ble.Errors.{auth_error, Result, ok, err, ◌>>=◌}
use yalexs_ble.Util.Bytes.{copy}
use yalexs_ble.SecureSession.{build_command}
use yalexs_ble.Lock.Handshake.{
  exchange_command, initialization_command, check_flag, session_key_of, Handshake, initialize,
  setup_session,
}

-- The answer to a command with its flag.
abbrev pub is_flagged : ℕ → Result (List ℕ) → Bool
is_flagged flag (err e) = false
is_flagged flag (ok []) = false
is_flagged flag (ok (first ∷ rest)) = first == flag

abbrev pub is_ok {ℓ} : {A : Type ℓ} → Result A → Bool
is_ok (ok a) = true
is_ok (err e) = false

check_flag-flagged :
    (flag : ℕ) (answer : Result (List ℕ))
    → is_ok (answer >>= check_flag flag) ≡ is_flagged flag answer
unfolding check_flag
check_flag-flagged flag (err e) = refl
check_flag-flagged flag (ok []) = refl
check_flag-flagged flag (ok (first ∷ rest)) = ground arith

copied_halves :
    (x y : List ℕ) → length x ≡ 8 → length y ≡ 8 → copy (copy (replicate 16 0) x 0) y 8 ≡ x ++ y
copied_halves (a ∷ b ∷ c ∷ d ∷ e ∷ f ∷ g ∷ h ∷ []) (a' ∷ b' ∷ c' ∷ d' ∷ e' ∷ f' ∷ g' ∷ h' ∷ []) p
      q =
    refl
copied_halves (a ∷ b ∷ c ∷ d ∷ e ∷ f ∷ g ∷ h ∷ []) y p q = absurd (omega arith)
copied_halves x y p q = absurd (omega arith)

-- The key of two 8-byte halves.
session_key_of-halves :
    (handshake_keys response : List ℕ)
    → 16 ≤ length handshake_keys
    → 12 ≤ length response
    → session_key_of handshake_keys response ≡ slice 0 8 handshake_keys ++ slice 4 12 response
unfolding session_key_of
session_key_of-halves handshake_keys response h k =
    copied_halves (slice 0 8 handshake_keys) (slice 4 12 response)
      (omega (arith, length-take 8 handshake_keys))
      (omega (arith, length-take 8 (drop 4 response), length-drop 4 response))

exchange_command-built :
    (key_index : ℕ) (handshake_keys : List ℕ)
    → key_index < 256
    → is_ok (exchange_command key_index handshake_keys) ≡ true
unfolding exchange_command build_command
exchange_command-built key_index handshake_keys h = ground arith

initialization_command-built :
    (key_index : ℕ) (handshake_keys : List ℕ)
    → key_index < 256
    → is_ok (initialization_command key_index handshake_keys) ≡ true
unfolding initialization_command build_command
initialization_command-built key_index handshake_keys h = ground arith

-- Whether a handshake with these answers succeeds.
abbrev pub accepted : Result (List ℕ) → Result (List ℕ) → Bool
accepted exchange_answer initialization_answer =
    is_flagged 0x02 exchange_answer && is_flagged 0x04 initialization_answer

-- What a handshake leaves, by whether it succeeds: a key for the plain session if it does.
abbrev pub Keyed : List ℕ → Bool → Handshake → Type 0
Keyed key good out =
    (out.session_key ≡ (if good then some key else none)) × (is_ok out.result ≡ good)

initialize-Keyed :
    (key_index : ℕ) (key handshake_keys session_key : List ℕ) (sent : List (List ℕ))
    (answer : Result (List ℕ))
    → key_index < 256
    → Keyed session_key
        (is_flagged 0x04 answer)
        (initialize key_index key handshake_keys session_key sent answer)
unfolding initialize
initialize-Keyed key_index key handshake_keys session_key sent answer h =
    let built = initialization_command-built key_index handshake_keys h in
    let flagged = check_flag-flagged 0x04 answer in ground arith

ok-value : {A : Type 0} (r : Result A) → is_ok r ≡ true → (a : A) × (r ≡ ok a)
ok-value (ok a) h = (a, refl)
ok-value (err e) h = cc

check_flag-result :
    (flag : ℕ) (response : List ℕ)
    → 0 < length response
    → check_flag flag response
      ≡ (if is_flagged flag (ok response) then ok response else err auth_error)
unfolding check_flag
check_flag-result flag [] h = elim h [ ]
check_flag-result flag (first ∷ rest) h = ground arith

-- With a key index that is a byte, 16 random bytes and a whole frame as the first answer, the
-- handshake succeeds, and hands a key to the plain session, exactly if the two answers start with 2
-- and 4; the key is the first 8 random bytes and then bytes 4 to 11 of the first answer.
pub setup_session-Keyed :
    (key_index : ℕ) (key handshake_keys response : List ℕ) (initialization_answer : Result (List ℕ))
    → key_index < 256
    → 16 ≤ length handshake_keys
    → 12 ≤ length response
    → Keyed
        (slice 0 8 handshake_keys ++ slice 4 12 response)
        (accepted (ok response) initialization_answer)
        (setup_session key_index key handshake_keys (ok response) initialization_answer)
unfolding setup_session
setup_session-Keyed key_index key handshake_keys response initialization_answer h k l =
    let (cmd, built) =
      ok-value (exchange_command key_index handshake_keys)
        (exchange_command-built key_index handshake_keys h) in
    let begun =
      initialize-Keyed key_index key handshake_keys (session_key_of handshake_keys response)
        (cmd ∷ []) initialization_answer h in
    elim (Bool-cases (is_flagged 0x02 (ok response))) [
      | inl accepted_first ↦
          rw
            (
              setup_session,
              built,
              check_flag-result 0x02 response (omega arith),
              accepted_first,
              session_key_of-halves handshake_keys response k l,
            )
            (rw (session_key_of-halves handshake_keys response k l) at begun)
      | inr refused ↦
          rw (setup_session, built, check_flag-result 0x02 response (omega arith), refused)
            (refl, refl)
    ]
