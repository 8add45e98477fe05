-- ===== src/Gateway/Names.antt =====
-- The names that the controllers derive: `sanitizeVolumeName` of
-- internal/controller/agentrun_controller.go, and the job name and the credential digest of
-- internal/controller/gateway_controller.go. Names are lists of code points; SHA-256 is an argument.
use agentic_controller.Prelude.{
  ℕ, zero, suc, ◌+◌, ◌-◌, ◌/◌, ◌%◌, pos, String, Bool, ◌&&◌, ◌||◌, Option, none, some, List, [],
  ◌∷◌, ◌++◌, map, length, take, eqb, leb, ltb, ◌==◌, if◌then◌else◌,
}
use agentic_controller.Text.Split.{trim, lower}
use agentic_controller.Text.{codes, trim_right, equal_texts}
use agentic_controller.Params.Integers.{format_int}

-- `[a-z0-9-]`
abbrev pub is_name_char : ℕ → Bool
is_name_char c = leb 97 c && leb c 122 || leb 48 c && leb c 57 || eqb c b'-'

abbrev rewrite_char : ℕ → ℕ
rewrite_char c = if is_name_char c then c else b'-'

abbrev pub max_name : ℕ
max_name = 63

-- lower case, with a hyphen for every other character, and none at the ends
unfoldable pub rewritten : List ℕ → List ℕ
unfolding lower trim
rewritten name = trim (codes "-") (map rewrite_char (lower name))

abbrev or_x : List ℕ → List ℕ
or_x [] = codes "x"
or_x (c ∷ s) = c ∷ s

-- the name with its suffix, cut to fit
unfoldable pub with_suffix : List ℕ → List ℕ → List ℕ
unfolding trim_right
with_suffix base suffix =
    if ltb max_name (length base + length suffix)
    then trim_right (eqb b'-') (take (max_name - length suffix) base) ++ suffix
    else base ++ suffix

-- `sanitizeVolumeName`; `digest` is the print of the first four bytes of SHA-256
unfoldable pub sanitize_volume_name : (List ℕ → List ℕ) → List ℕ → List ℕ
unfolding rewritten with_suffix equal_texts
sanitize_volume_name digest name =
    if equal_texts (rewritten name) name && leb (length name) max_name
    then name
    else with_suffix (or_x (rewritten name)) (b'-' ∷ digest name)

-- `shortCredentialHash`
unfoldable pub short_credential_hash : List ℕ → List ℕ
short_credential_hash hash = if leb (length hash) 8 then hash else take 8 hash

-- `verificationJobName`
unfoldable pub verification_job_name : (List ℕ → List ℕ) → List ℕ → ℕ → List ℕ → List ℕ
unfolding sanitize_volume_name short_credential_hash format_int
verification_job_name digest name generation hash = sanitize_volume_name digest (
    codes "gw-verify-"
    ++ name
    ++ codes "-gen"
    ++ format_int (pos generation)
    ++ codes "-"
    ++ short_credential_hash hash)

-- `binary.BigEndian`: `k` bytes of `n`
unfoldable pub big_endian : ℕ → ℕ → List ℕ
big_endian zero n = []
big_endian (suc k) n = big_endian k (n / 256) ++ n % 256 ∷ []

-- `hashCredentialField`: what it writes to the hash
unfoldable pub credential_field : List ℕ → List ℕ
unfolding big_endian
credential_field b = big_endian 8 (length b) ++ b

abbrev pub SecretData : Type 0
SecretData = List (String × List ℕ)

unfoldable pub secret_value : String → SecretData → Option (List ℕ)
secret_value key [] = none
secret_value key ((k, v) ∷ rest) =
    let later = secret_value key rest in if k == key then some v else later

or_empty : Option (List ℕ) → List ℕ
or_empty none = []
or_empty (some v) = v

-- the keys and values of a Secret whose entries stand in the order of their keys
whole_secret : SecretData → List ℕ
unfolding credential_field
whole_secret [] = []
whole_secret ((k, v) ∷ rest) = credential_field (codes k) ++ credential_field v ++ whole_secret rest

-- what `credentialHash` writes to the hash
unfoldable pub credential_bytes : String → SecretData → List ℕ
unfolding whole_secret credential_field secret_value or_empty
credential_bytes key entries =
    if key == ""
    then whole_secret entries
    else credential_field (codes key) ++ credential_field (or_empty (secret_value key entries))
