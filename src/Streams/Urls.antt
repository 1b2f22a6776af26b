-- ===== src/Streams/Urls.antt =====
-- `buildUrl` of src/streams.ts.
use fermi_v1_sdk.Base.{List, [], ◌∷◌, ◌++◌, Option, none, some, Text, if◌then◌else◌, ◌==◌}

-- `.replace(/\/+$/, '')`
unfoldable pub strip_slashes : Text → Text
strip_slashes [] = []
strip_slashes (c ∷ s) = elim (strip_slashes s) [
  | [] ↦ if c == b'/' then [] else c ∷ []
  | d ∷ t ↦ c ∷ d ∷ t
]

abbrev pub with_slash : Text → Text
with_slash [] = b'/' ∷ []
with_slash (c ∷ s) = if c == b'/' then c ∷ s else b'/' ∷ c ∷ s

-- The entries whose value is not undefined.
abbrev pub defined : List (Text × Option Text) → List (Text × Text)
defined [] = []
defined ((k, none) ∷ rest) = defined rest
defined ((k, some v) ∷ rest) = (k, v) ∷ defined rest

abbrev pub with_query : Text → Text → Text
with_query url [] = url
with_query url (c ∷ s) = url ++ b'?' ∷ c ∷ s

-- `URLSearchParams` writes the entries.
module _ (encode : List (Text × Text) → Text) where
  unfoldable pub build_url : Text → Text → Option (List (Text × Option Text)) → Text
  unfolding strip_slashes
  build_url base path none = strip_slashes base ++ with_slash path
  build_url base path (some query) =
      with_query (strip_slashes base ++ with_slash path) (encode (defined query))
