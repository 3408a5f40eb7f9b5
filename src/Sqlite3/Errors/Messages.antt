-- ===== src/Sqlite3/Errors/Messages.antt =====
-- sqlite3.go: what an error made from a result code says.
use purego_gen.Prelude.{ℕ, ◌≡◌, ◌≢◌, refl, Bool, true, false, ◌&&◌, not, List, [], ◌∷◌, some, arith}
use purego_gen.Prelude.Int.{ℤ, pos}
use purego_gen.Prelude.Text.{Text, is_empty}
use purego_gen.Go.{SqliteError, sqlite_error}
use purego_gen.Sqlite3.Codes.{sqlite_ok}
use purego_gen.Sqlite3.Extern.{Extern, Handle}
use purego_gen.Sqlite3.Errors.{
  sqlite_error_string, primary_messages, find_case, or_code, low_byte, error_text,
  error_from_result,
}

abbrev none_empty : List (ℕ × Text) → Bool
none_empty [] = true
none_empty ((k, t) ∷ cases) = not (is_empty t) && none_empty cases

or_code-find_case :
    (code : ℤ) (n : ℕ) (cases : List (ℕ × Text))
    → none_empty cases ≡ true
    → is_empty (or_code code (find_case n cases)) ≡ false
or_code-find_case code n [] h = refl
or_code-find_case code n ((k, u) ∷ cases) h = ground (arith, or_code-find_case code n cases)

message_nonempty : (code : ℤ) → is_empty (sqlite_error_string code) ≡ false
unfolding sqlite_error_string
message_nonempty code =
    or_code-find_case code (low_byte code) primary_messages (unfold primary_messages in refl)

error_text_nonempty : (e : SqliteError) → is_empty (error_text e) ≡ false
unfolding error_text
error_text_nonempty e = grind (arith, message_nonempty)

-- An error made from a result code keeps that code as its extended code and the low byte of it as its
-- code, its text is never empty, and the code was not SQLITE_OK.
pub error_from_result_keeps :
    {S : Type 0} (x : Extern S) (db : Handle) (code : ℤ) (s : S) (e : SqliteError)
    → error_from_result x db code s ≡ some (sqlite_error e)
    → (code ≢ sqlite_ok)
      × (e.extended_code ≡ code)
      × (e.code ≡ pos (low_byte code))
      × (is_empty (error_text e) ≡ false)
unfolding error_from_result
error_from_result_keeps x db code s e h =
    (ground arith, ground arith, ground arith, error_text_nonempty e)
