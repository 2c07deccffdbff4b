-- ===== src/Database/Tests/Unary.antt =====
-- A host for the tests: an integer is written as its sign and its absolute value in ones.
use Prim.Native.Char.{code}
use Prim.Native.String.{[] as nil, ◌∷◌ as chars}
use hikari.Prelude.{ℕ, zero, suc, ◌≡◌, refl, ap, Option, none, some, if◌then◌else◌, ◌==◌}
use hikari.Prelude.Int.{ℤ, pos, negsuc}
use hikari.Prelude.Text.{String}
use hikari.Prelude.Json.{end}
use hikari.Database.Types.{Host, SyncFile, Snapshot, stringified, other_text}
use hikari.Database.Deposits.{ReadsBack}

ones : ℕ → String
ones zero = nil
ones (suc k) = chars "1" (ones k)

count : String → ℕ
count nil = 0
count (chars c s) = suc (count s)

unfoldable pub show : ℤ → String
unfolding ones
show (pos k) = chars "0" (ones k)
show (negsuc k) = chars "-" (ones k)

unfoldable pub parse : String → Option ℤ
unfolding count
parse nil = none
parse (chars c s) = if code c == b'-' then some (negsuc (count s)) else some (pos (count s))

count-ones : (k : ℕ) → count (ones k) ≡ k
unfolding count ones
count-ones zero = refl
count-ones (suc k) = ap suc (count-ones k)

abbrev read_file : SyncFile ℤ → Option (Snapshot ℤ)
read_file (stringified payload) = some payload
read_file (other_text s) = none

abbrev pub host : Host ℤ
host = record {
  big_int = parse;
  syntax_error = "SyntaxError";
  show_ℤ = show;
  spread_other = λ v. end;
  mask_password = λ s. s;
  last_four = λ s. s;
  parse = read_file;
}

pub host-ReadsBack : ReadsBack host
unfolding parse show
host-ReadsBack (pos k) = ap (λ i. some (pos i)) (count-ones k)
host-ReadsBack (negsuc k) = ap (λ i. some (negsuc i)) (count-ones k)
