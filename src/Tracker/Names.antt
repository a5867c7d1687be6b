-- ===== src/Tracker/Names.antt =====
-- `errorToString`: the texts of the error codes.
use Prim.Native.String.{String}
use text.Mathlib.Text.{◌==◌}
use espasync_tcp.Common.{
  ◌≡◌, refl, Bool, true, false, Option, none, some, List, [], ◌∷◌, if◌then◌else◌,
}
use espasync_tcp.Lwip

-- `errorToString(error)`; the codes of TLS errors are above zero
unfoldable pub error_to_string : Lwip.Err → String
error_to_string Lwip.ok = "No error, everything OK"
error_to_string Lwip.mem = "Out of memory error"
error_to_string Lwip.buf = "Buffer error"
error_to_string Lwip.timeout = "Timeout"
error_to_string Lwip.rte = "Routing problem"
error_to_string Lwip.inprogress = "Operation in progress"
error_to_string Lwip.val = "Illegal value"
error_to_string Lwip.wouldblock = "Operation would block"
error_to_string Lwip.abrt = "Connection aborted"
error_to_string Lwip.rst = "Connection reset"
error_to_string Lwip.clsd = "Connection closed"
error_to_string Lwip.conn = "Not connected"
error_to_string Lwip.arg = "Illegal argument"
error_to_string Lwip.use_ = "Address in use"
error_to_string Lwip.already = "Already connectioning"
error_to_string Lwip.if_ = "Low-level netif error"
error_to_string Lwip.isconn = "Connection already established"
error_to_string Lwip.dns_failed = "DNS failed"
error_to_string (Lwip.ssl n) = "Unknown error"
error_to_string (Lwip.other n) = "Unknown error"

-- the codes that have a text of their own
abbrev named : List Lwip.Err
named =
    Lwip.ok ∷ Lwip.mem ∷ Lwip.buf ∷ Lwip.timeout ∷ Lwip.rte ∷ Lwip.inprogress ∷ Lwip.val
    ∷ Lwip.wouldblock ∷ Lwip.abrt ∷ Lwip.rst ∷ Lwip.clsd ∷ Lwip.conn ∷ Lwip.arg ∷ Lwip.use_
    ∷ Lwip.already ∷ Lwip.if_ ∷ Lwip.isconn ∷ Lwip.dns_failed ∷ []

-- reading a text: the first code in the list that it stands for
unfoldable pub code_among : List Lwip.Err → String → Option Lwip.Err
unfolding error_to_string
code_among [] text = none
code_among (e ∷ es) text = if error_to_string e == text then some e else code_among es text

abbrev pub code_of : String → Option Lwip.Err
code_of = code_among named

abbrev pub is_named : Lwip.Err → Bool
is_named (Lwip.ssl n) = false
is_named (Lwip.other n) = false
is_named _ = true

-- A code with a text of its own can be read back from the text that `errorToString` gives it, so that
-- no two of these codes share a text; and the text of any other code is none of theirs.
pub code_of-error_to_string :
    (e : Lwip.Err) → code_of (error_to_string e) ≡ (if is_named e then some e else none)
unfolding error_to_string code_among
code_of-error_to_string Lwip.ok = refl
code_of-error_to_string Lwip.mem = refl
code_of-error_to_string Lwip.buf = refl
code_of-error_to_string Lwip.timeout = refl
code_of-error_to_string Lwip.rte = refl
code_of-error_to_string Lwip.inprogress = refl
code_of-error_to_string Lwip.val = refl
code_of-error_to_string Lwip.wouldblock = refl
code_of-error_to_string Lwip.abrt = refl
code_of-error_to_string Lwip.rst = refl
code_of-error_to_string Lwip.clsd = refl
code_of-error_to_string Lwip.conn = refl
code_of-error_to_string Lwip.arg = refl
code_of-error_to_string Lwip.use_ = refl
code_of-error_to_string Lwip.already = refl
code_of-error_to_string Lwip.if_ = refl
code_of-error_to_string Lwip.isconn = refl
code_of-error_to_string Lwip.dns_failed = refl
code_of-error_to_string (Lwip.ssl n) = refl
code_of-error_to_string (Lwip.other n) = refl
