-- ===== src/Station/Spool.antt =====
-- apps/trace-station/src/spool.rs: the offline queue, one line of JSON for each record. The file and
-- the temporary one beside it are the state; any call of the file system may fail, and a write that
-- fails, or that a power cut ends, leaves a prefix of its bytes. serde_json is a parameter.
pub mod Lines
pub mod Durability
pub mod Torn
use traceability.Base.{
  ℕ, zero, suc, String, Bool, true, false, not, ◌&&◌, ◌||◌, List, [], ◌∷◌, ◌++◌, Option, none, some,
  Result, ok, err, ◌>>=◌, ltb, leb, ◌==◌, if◌then◌else◌, length, filter, any, all, is_empty, take,
  str_eq,
}
use traceability.Core.Chain.{Bytes}

pub data SpoolPath : Type 0 where
  parent spool compacting : SpoolPath

pub data SpoolError : Type 0 where
  io : (path : SpoolPath) → SpoolError
  encode : (detail : String) → SpoolError

-- `J` is the type `serde_json::Value`.
pub record SpoolRecord (J : Type 0) : Type 0 where
  pub id : String
  pub topic : String
  pub payload : J
  pub recorded_at : ℕ
  pub attempts : ℕ

-- `serde_json::to_string` and `from_str` for a record; the reason of a failure is only logged.
pub record Codec (J : Type 0) : Type 0 where
  pub to_string : SpoolRecord J → Result String Bytes
  pub from_str : Bytes → Option (SpoolRecord J)

pub record Disk : Type 0 where
  pub spool : Option Bytes
  pub compacting : Option Bytes

abbrev pub newline : ℕ
newline = 10

-- Where `append` fails. `torn` has written so many bytes; after `sync_failed` all are written.
pub data AppendFault : Type 0 where
  dir_failed open_failed sync_failed : AppendFault
  torn : (written : ℕ) → AppendFault

-- The content that `OpenOptions::append` adds to.
abbrev pub content : Option Bytes → Bytes
content none = []
content (some bytes) = bytes

unfoldable pub extend : Disk → Bytes → Disk
extend disk bytes = record disk { spool = some (content disk.spool ++ bytes) }

unfoldable pub write_line :
    Option AppendFault → Disk → Result String Bytes → Disk × Result SpoolError (Unit {0})
write_line (some dir_failed) disk line = (disk, err (io parent))
write_line fault disk (err detail) = (disk, err (encode detail))
write_line (some open_failed) disk (ok line) = (disk, err (io spool))
write_line (some (torn written)) disk (ok line) =
    (extend disk (take written (line ++ newline ∷ [])), err (io spool))
write_line (some sync_failed) disk (ok line) = (extend disk (line ++ newline ∷ []), err (io spool))
write_line none disk (ok line) = (extend disk (line ++ newline ∷ []), ok tt)

-- The bytes that may follow a leading byte of UTF-8, as `from_utf8` of the standard library has them;
-- none for a byte that leads nothing.
unfoldable pub followers : ℕ → Option (List (ℕ × ℕ))
followers b =
    if ltb b 128
    then some []
    else if ltb b 194
    then none
    else if ltb b 224
    then some ((128, 191) ∷ [])
    else if b == 224
    then some ((160, 191) ∷ (128, 191) ∷ [])
    else if b == 237
    then some ((128, 159) ∷ (128, 191) ∷ [])
    else if ltb b 240
    then some ((128, 191) ∷ (128, 191) ∷ [])
    else if b == 240
    then some ((144, 191) ∷ (128, 191) ∷ (128, 191) ∷ [])
    else if ltb b 244
    then some ((128, 191) ∷ (128, 191) ∷ (128, 191) ∷ [])
    else if b == 244
    then some ((128, 143) ∷ (128, 191) ∷ (128, 191) ∷ [])
    else none

-- What must follow after each byte: nothing if the text is broken, no byte where a character ends.
unfoldable pub utf8_step : Option (List (ℕ × ℕ)) → ℕ → Option (List (ℕ × ℕ))
utf8_step none b = none
utf8_step (some []) b = followers b
utf8_step (some ((low, high) ∷ ranges)) b = if leb low b && leb b high then some ranges else none

unfoldable pub utf8_state : Option (List (ℕ × ℕ)) → Bytes → Option (List (ℕ × ℕ))
utf8_state s [] = s
utf8_state s (b ∷ bytes) = utf8_state (utf8_step s b) bytes

abbrev pub at_boundary : Option (List (ℕ × ℕ)) → Bool
at_boundary none = false
at_boundary (some []) = true
at_boundary (some (range ∷ ranges)) = false

-- Whether `read_to_string` takes the bytes for a text.
unfoldable pub is_utf8 : Bytes → Bool
is_utf8 bytes = at_boundary (utf8_state (some []) bytes)

-- `str::lines`: a line that ends in a newline loses it, with a carriage return before it; what
-- stands behind the last newline is a line if it is not empty.
unfoldable pub strip_cr : Bytes → Bytes
strip_cr [] = []
strip_cr (b ∷ []) = if b == 13 then [] else b ∷ []
strip_cr (b ∷ c ∷ rest) = b ∷ strip_cr (c ∷ rest)

abbrev pub last_line : Bytes → List Bytes
last_line [] = []
last_line (b ∷ rest) = (b ∷ rest) ∷ []

unfoldable pub lines_from : Bytes → Bytes → List Bytes
lines_from line [] = last_line line
lines_from line (b ∷ rest) =
    let open_line = lines_from (line ++ b ∷ []) rest in
    let next_line = lines_from [] rest in
    if b == newline then strip_cr line ∷ next_line else open_line

unfoldable pub lines : Bytes → List Bytes
lines bytes = lines_from [] bytes

-- `line.trim().is_empty()` for ASCII spaces. A line of other Unicode spaces is no JSON, and so
-- yields no record either.
abbrev pub is_space : ℕ → Bool
is_space b = b == 32 || leb 9 b && leb b 13

-- Where `remove_acknowledged` fails.
pub data CompactFault : Type 0 where
  load_failed create_failed compact_sync_failed rename_failed : CompactFault
  compact_torn : (written : ℕ) → CompactFault

abbrev pub load_fails : Option CompactFault → Bool
load_fails (some load_failed) = true
load_fails _ = false

abbrev pub is_acknowledged : {J : Type 0} → List String → SpoolRecord J → Bool
is_acknowledged acked r = any (λ id. str_eq id r.id) acked

-- The rewrite, by the text to write.
unfoldable pub compact : Option CompactFault → Disk → ℕ → Bytes → Disk × Result SpoolError ℕ
compact (some load_failed) disk remaining buf = (disk, err (io spool))
compact (some create_failed) disk remaining buf = (disk, err (io compacting))
compact (some (compact_torn written)) disk remaining buf =
    (record disk { compacting = some (take written buf) }, err (io compacting))
compact (some compact_sync_failed) disk remaining buf =
    (record disk { compacting = some buf }, err (io compacting))
compact (some rename_failed) disk remaining buf =
    (record disk { compacting = some buf }, err (io spool))
compact none disk remaining buf = (record { spool = some buf; compacting = none }, ok remaining)

module _ {J : Type 0} (codec : Codec J) where
  unfoldable pub append :
      Option AppendFault → Disk → SpoolRecord J → Disk × Result SpoolError (Unit {0})
  append fault disk r = write_line fault disk (codec.to_string r)

  abbrev pub or_skip : Option (SpoolRecord J) → List (SpoolRecord J)
  or_skip none = []
  or_skip (some r) = r ∷ []

  -- One turn of the loop in `load`.
  unfoldable pub read_line : Bytes → List (SpoolRecord J)
  read_line line = if all is_space line then [] else or_skip (codec.from_str line)

  unfoldable pub read_lines : List Bytes → List (SpoolRecord J)
  read_lines [] = []
  read_lines (line ∷ rest) = read_line line ++ read_lines rest

  abbrev pub load_content : Option Bytes → Result SpoolError (List (SpoolRecord J))
  load_content none = ok []
  load_content (some raw) = if is_utf8 raw then ok (read_lines (lines raw)) else err (io spool)

  -- Whether the call that reads fails, for another reason than that there is no file.
  unfoldable pub load : Bool → Disk → Result SpoolError (List (SpoolRecord J))
  load true disk = err (io spool)
  load false disk = load_content disk.spool

  unfoldable pub len : Bool → Disk → Result SpoolError ℕ
  len fails disk = load fails disk >>= λ records. ok (length records)

  unfoldable pub is_spool_empty : Bool → Disk → Result SpoolError Bool
  is_spool_empty fails disk = len fails disk >>= λ n. ok (n == 0)

  abbrev pub encoded : Result String Bytes → Result SpoolError Bytes
  encoded (ok line) = ok line
  encoded (err detail) = err (encode detail)

  -- The text of the remaining records.
  unfoldable pub encode_all : List (SpoolRecord J) → Result SpoolError Bytes
  encode_all [] = ok []
  encode_all (r ∷ rest) =
      encoded (codec.to_string r) >>= λ line. encode_all rest >>= λ buf. ok (line ++ newline ∷ buf)

  abbrev pub compact_encoded :
      Option CompactFault → Disk → ℕ → Result SpoolError Bytes → Disk × Result SpoolError ℕ
  compact_encoded fault disk remaining (ok buf) = compact fault disk remaining buf
  compact_encoded fault disk remaining (err e) = (disk, err e)

  abbrev pub compact_loaded :
      Option CompactFault
      → Disk
      → List String
      → Result SpoolError (List (SpoolRecord J))
      → Disk × Result SpoolError ℕ
  compact_loaded fault disk acked (err e) = (disk, err e)
  compact_loaded fault disk acked (ok records) =
      let remaining = filter (λ r. not (is_acknowledged acked r)) records in
      compact_encoded fault disk (length remaining) (encode_all remaining)

  unfoldable pub remove_acknowledged :
      Option CompactFault → Disk → List String → Disk × Result SpoolError ℕ
  remove_acknowledged fault disk acked =
      compact_loaded fault disk acked (load (load_fails fault) disk)
