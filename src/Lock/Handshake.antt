-- ===== src/Lock/Handshake.antt =====
-- lock.py: the handshake, `_setup_session`. What the secure session returns for its two commands, and
-- the 16 random bytes, are arguments. The commands are shown before their checksums.
use yalexs_ble.Prelude.{
  ℕ, Bool, true, false, not, Option, none, some, List, [], ◌∷◌, slice, replicate, ◌==◌,
}
use yalexs_ble.Errors.{Error, auth_error, Result, ok, err, ◌>>=◌, ◌>>◌, raise_if}
use yalexs_ble.Util.Bytes.{index, copy}
use yalexs_ble.SecureSession.{build_command}

-- The command with the first half of the random bytes.
unfoldable pub exchange_command : ℕ → List ℕ → Result (List ℕ)
exchange_command key_index handshake_keys = do
  cmd ← build_command key_index 0x01
  ok (copy cmd (slice 0x00 0x08 handshake_keys) 0x04)

-- The command with the second half.
unfoldable pub initialization_command : ℕ → List ℕ → Result (List ℕ)
initialization_command key_index handshake_keys = do
  cmd ← build_command key_index 0x03
  ok (copy cmd (slice 0x08 0x10 handshake_keys) 0x04)

-- `if response[0] != flag: raise AuthError(…)`
unfoldable pub check_flag : ℕ → List ℕ → Result (List ℕ)
check_flag flag response = do
  first ← index response 0x00
  raise_if (not (first == flag)) auth_error
  ok response

-- Half of the key is ours, half the lock's.
unfoldable pub session_key_of : List ℕ → List ℕ → List ℕ
session_key_of handshake_keys response =
    copy (copy (replicate 16 0) (slice 0x00 0x08 handshake_keys) 0x00) (slice 0x04 0x0C response)
      0x08

-- What the handshake leaves: the commands sent, the keys set on the secure session, the last one
-- first, the key of the plain session, `is_secure`, and the result.
pub record Handshake : Type 0 where
  pub sent : List (List ℕ)
  pub secure_keys : List (List ℕ)
  pub session_key : Option (List ℕ)
  pub is_secure : Bool
  pub result : Result (Unit {0})

-- From the second command on.
unfoldable pub initialize :
    ℕ → List ℕ → List ℕ → List ℕ → List (List ℕ) → Result (List ℕ) → Handshake
initialize key_index key handshake_keys session_key sent answer =
    elim (initialization_command key_index handshake_keys) [
      | err e ↦ record {
        sent = sent;
        secure_keys = session_key ∷ key ∷ [];
        session_key = none;
        is_secure = true;
        result = err e;
      }
      | ok cmd ↦ elim (answer >>= check_flag 0x04) [
        | err e ↦ record {
          sent = cmd ∷ sent;
          secure_keys = session_key ∷ key ∷ [];
          session_key = none;
          is_secure = true;
          result = err e;
        }
        | ok response ↦ record {
          sent = cmd ∷ sent;
          secure_keys = session_key ∷ key ∷ [];
          session_key = some session_key;
          is_secure = true;
          result = ok tt;
        }
      ]
    ]

abbrev pub not_secured : List ℕ → List (List ℕ) → Error → Handshake
not_secured key sent e = record {
  sent = sent;
  secure_keys = key ∷ [];
  session_key = none;
  is_secure = false;
  result = err e;
}

-- `_setup_session`
unfoldable pub setup_session : ℕ → List ℕ → List ℕ → Result (List ℕ) → Result (List ℕ) → Handshake
unfolding initialize
setup_session key_index key handshake_keys exchange_answer initialization_answer =
    elim (exchange_command key_index handshake_keys) [
      | err e ↦ not_secured key [] e
      | ok cmd ↦ elim (exchange_answer >>= check_flag 0x02) [
        | err e ↦ not_secured key (cmd ∷ []) e
        | ok response ↦
            initialize key_index key handshake_keys (session_key_of handshake_keys response)
              (cmd ∷ []) initialization_answer
      ]
    ]
