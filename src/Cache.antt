-- ===== src/Cache.antt =====
-- The keys of cached values (app/services/cache.py, scoped_cache_key).
use Prim.Native.String.{◌++◌ as join_text}
use Prim.Native.String.append.{nil as append-nil, cons as append-cons}
use office_mult_agent.Base.{String, List, ◌∷◌, ◌≡◌, sym, ◌∙◌, arith}

-- `json.dumps` of a list of texts, and the hexadecimal SHA-256 of a text.
pub record Hashing : Type 0 where
  pub dumps : List String → String
  pub sha256 : String → String

unfoldable pub scoped_cache_key : Hashing → String → String → String → List String → String
scoped_cache_key h prefix namespace tenant_id parts = join_text prefix (
    join_text ":" (join_text namespace (join_text ":v1:" (h.sha256 (h.dumps (tenant_id ∷ parts))))))

append_cancel : (p a b : String) → join_text p a ≡ join_text p b → a ≡ b
append_cancel String.[] a b h = sym (append-nil a) ∙ h ∙ append-nil b
append_cancel (String.◌∷◌ c p) a b h =
    append_cancel p a b (ground (arith, sym (append-cons c p a) ∙ h ∙ append-cons c p b))

-- Keys of one prefix and namespace are the same only if the hashes are.
pub scoped_cache_key-sha256 :
    (h : Hashing) (prefix namespace t t' : String) (parts parts' : List String)
    → scoped_cache_key h prefix namespace t parts ≡ scoped_cache_key h prefix namespace t' parts'
    → h.sha256 (h.dumps (t ∷ parts)) ≡ h.sha256 (h.dumps (t' ∷ parts'))
unfolding scoped_cache_key
scoped_cache_key-sha256 h prefix namespace t t' parts parts' same =
    append_cancel ":v1:" _ _
      (append_cancel namespace _ _ (append_cancel ":" _ _ (append_cancel prefix _ _ same)))
