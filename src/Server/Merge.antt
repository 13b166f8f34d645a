-- ===== src/Server/Merge.antt =====
-- `write_smart_merge`: the file that the user edits gets the handlers that it lacks.
pub mod Again
pub mod Keys
use mathlib.Core.Bool.{Bool, true, false, ◌||◌, ◌&&◌}
use windrpc.Base.{ℕ, Option, none, some, List, [], ◌∷◌, ◌++◌, map, any, ◌==◌, if◌then◌else◌}
use windrpc.Base.Text.{Str, codes, str_eq, starts_with, join}
use windrpc.Base.Pieces.{newline, strip, lines, words, split_paragraphs, occurs, ends_with}

-- a line that is skipped in the search for the signature
unfoldable pub is_comment : Str → Bool
is_comment line =
    let l = strip line in
    starts_with l (codes "/*") || starts_with l (codes "*") || starts_with l (codes "//")

-- the first line that is no comment, or ""
unfoldable pub sig_line : List Str → Str
unfolding is_comment
sig_line [] = []
sig_line (line ∷ rest) = if is_comment line then sig_line rest else line

-- `sig_line.replace('(', ' ').replace(')', ' ').replace('{', ' ').replace('=', ' ')`
unfoldable pub spaced : ℕ → ℕ
spaced c = if (c == b'(') || (c == b')') || (c == b'{') || (c == b'=') then b' ' else c

unfoldable pub is_key : Str → Bool
is_key token =
    starts_with token (codes "windrpc_on_")
    || starts_with token (codes "windrpc_notify_")
    || ends_with token (codes "_service")
    || str_eq token (codes "windrpc_services")
    || starts_with token (codes "rpc_")

unfoldable pub first_key : List Str → Option Str
unfolding is_key
first_key [] = none
first_key (token ∷ tokens) = if is_key token then some token else first_key tokens

-- a block that is empty or part of the file's head
unfoldable pub is_header : Str → Bool
is_header block_strip =
    str_eq block_strip []
    || starts_with block_strip (codes "/**")
    || starts_with block_strip (codes "#include")
    || starts_with block_strip (codes "LOG_MODULE_REGISTER")

-- a block without a handler
unfoldable pub is_declaration : Str → Bool
is_declaration sig =
    str_eq sig []
    || starts_with sig (codes "struct ")
    || starts_with sig (codes "K_")
    || starts_with sig (codes "typedef ")

-- the name under which a block is looked up, or nothing where the block is skipped
unfoldable pub key_token : Str → Option Str
unfolding sig_line is_header is_declaration spaced first_key strip lines words
key_token block =
    let block_strip = strip block in
    let sig = sig_line (lines block_strip) in
    if is_header block_strip || is_declaration sig then none else first_key (words (map spaced sig))

-- a block in front of the additions, if it has a key that the file does not contain
unfoldable pub add_block : Str → Str → Option Str → List Str → List Str
unfolding occurs
add_block existing block none rest = rest
add_block existing block (some key) rest = if occurs key existing then rest else block ∷ rest

unfoldable pub additions : Str → List Str → List Str
unfolding key_token add_block
additions existing [] = []
additions existing (block ∷ blocks) =
    add_block existing block (key_token block) (additions existing blocks)

rule : Str
rule = codes "/* ========================================================================== */\n"

unfoldable pub banner : Str
unfolding rule
banner =
    codes "\n\n"
    ++ rule
    ++ codes "/* --- AUTO-GENERATED ADDITIONS (New RPCs / Services) ---                     */\n"
    ++ rule
    ++ codes "\n"

-- what is written behind the file's text
unfoldable pub appended : List Str → Str
appended [] = []
appended (block ∷ blocks) = banner ++ join (codes "\n\n") (block ∷ blocks) ++ codes "\n"

-- the text of the file and of its backup, where they exist
pub record Files : Type 0 where
  pub file : Option Str
  pub backup : Option Str

-- `copy2` stands for `shutil.copy2`: from the text of the source and what stands at the target to
-- what stands there afterwards, the exception that the program catches included
unfoldable pub write_smart_merge : (copy2 : Str → Option Str → Option Str) → Str → Files → Files
unfolding additions appended split_paragraphs
write_smart_merge copy2 new_content files = merge files.file
  where
    merge : Option Str → Files
    merge none = record { file = some new_content; backup = files.backup }
    merge (some existing) = record {
      file = some (existing ++ appended (additions existing (split_paragraphs false new_content)));
      backup = copy2 existing files.backup;
    }
