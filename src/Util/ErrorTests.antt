-- ===== src/Util/ErrorTests.antt =====
-- util.py: what an error of bleak means, read from its class and its message.
use yalexs_ble.Prelude.{Bool, ◌&&◌, ◌||◌, Text, codes, occurs_in}
use yalexs_ble.Errors.{Error, bleak_error, bleak_dbus_error, bleak_not_found_error, is_bleak_error}

-- `str(error)` of an error of bleak; the tests below read no other message.
abbrev pub bleak_message : Error → Text
bleak_message (bleak_error s) = s
bleak_message (bleak_dbus_error s) = s
bleak_message (bleak_not_found_error s) = s
bleak_message _ = codes ""

unfoldable pub is_key_error : Error → Bool
is_key_error error =
    is_bleak_error error
    && (occurs_in (codes "Unlikely Error") (bleak_message error)
        || occurs_in (codes "error=133") (bleak_message error))

unfoldable pub is_disconnected_error : Error → Bool
unfolding is_key_error
is_disconnected_error error =
    is_key_error error
    || (is_bleak_error error
        && (occurs_in (codes "disconnect") (bleak_message error)
            || occurs_in (codes "Connection Rejected Due To Security Reasons")
                (bleak_message error)))
