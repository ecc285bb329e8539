-- ===== src/Abi/Metadata.antt =====
-- abi/abi.h: the metadata callbacks, on the state `S` of the stream. A `double` is its 64-bit
-- pattern. The value behind a result pointer is a result, with the flag of success before it.
use luwes.Base.{ℕ, ◌≡◌, ◌≢◌, Bool, true, false, Option, some, List}
use luwes.Base.Bytes.{Bytes}
use luwes.Abi.Buffer.{Buffer, null, view, buffer_bytes}
use luwes.Abi.Common.{MetadataSource}

pub record MetadataCallbacks (S : Type 0) : Type 0 where
  pub set_dynamic_metadata_number : S → Buffer → Buffer → ℕ → S
  pub get_metadata_number : S → MetadataSource → Buffer → Buffer → Bool × ℕ
  pub set_dynamic_metadata_string : S → Buffer → Buffer → Buffer → S
  pub get_metadata_string : S → MetadataSource → Buffer → Buffer → Bool × Buffer
  pub set_dynamic_metadata_bool : S → Buffer → Buffer → Bool → S
  pub get_metadata_bool : S → MetadataSource → Buffer → Buffer → Bool × Bool

-- The callbacks that list the keys of a namespace and the namespaces.
pub record MetadataNames (S : Type 0) : Type 0 where
  pub get_metadata_keys_count : S → MetadataSource → Buffer → ℕ
  pub get_metadata_keys : S → MetadataSource → Buffer → Bool × List Buffer
  pub get_metadata_namespaces_count : S → MetadataSource → ℕ
  pub get_metadata_namespaces : S → MetadataSource → Bool × List Buffer

-- The callbacks on the lists among the values.
pub record MetadataLists (S : Type 0) : Type 0 where
  pub add_dynamic_metadata_list_number : S → Buffer → Buffer → ℕ → Bool × S
  pub add_dynamic_metadata_list_string : S → Buffer → Buffer → Buffer → Bool × S
  pub add_dynamic_metadata_list_bool : S → Buffer → Buffer → Bool → Bool × S
  pub get_metadata_list_size : S → MetadataSource → Buffer → Buffer → Bool × ℕ
  pub get_metadata_list_number : S → MetadataSource → Buffer → Buffer → ℕ → Bool × ℕ
  pub get_metadata_list_string : S → MetadataSource → Buffer → Buffer → ℕ → Bool × Buffer
  pub get_metadata_list_bool : S → MetadataSource → Buffer → Buffer → ℕ → Bool × Bool

-- The kinds of metadata that the callbacks tell apart.
pub data MetadataValue : Type 0 where
  number : ℕ → MetadataValue
  text : Bytes → MetadataValue
  boolean : Bool → MetadataValue
  another : MetadataValue

abbrev pub text_of : Option MetadataValue → Bool × Buffer
text_of (some (text s)) = (true, view s)
text_of _ = (false, null)

abbrev pub number_of : Option MetadataValue → Bool × ℕ
number_of (some (number n)) = (true, n)
number_of _ = (false, 0)

abbrev pub boolean_of : Option MetadataValue → Bool × Bool
boolean_of (some (boolean b)) = (true, b)
boolean_of _ = (false, false)

-- What abi.h documents: a getter succeeds on a value of its kind, and a setter overwrites.
pub record MetadataLaws {S : Type 0} (host : MetadataCallbacks S) : Type 0 where
  pub value : S → MetadataSource → Bytes → Bytes → Option MetadataValue
  pub get_text :
      (s : S) (m : MetadataSource) (ns key : Buffer)
      → host.get_metadata_string s m ns key
        ≡ text_of (value s m (buffer_bytes ns) (buffer_bytes key))
  pub get_number :
      (s : S) (m : MetadataSource) (ns key : Buffer)
      → host.get_metadata_number s m ns key
        ≡ number_of (value s m (buffer_bytes ns) (buffer_bytes key))
  pub get_boolean :
      (s : S) (m : MetadataSource) (ns key : Buffer)
      → host.get_metadata_bool s m ns key
        ≡ boolean_of (value s m (buffer_bytes ns) (buffer_bytes key))
  pub set_text :
      (s : S) (ns key v : Buffer)
      → value
          (host.set_dynamic_metadata_string s ns key v)
          MetadataSource.dynamic
          (buffer_bytes ns)
          (buffer_bytes key)
        ≡ some (text (buffer_bytes v))
  pub set_text_other :
      (s : S) (ns key v : Buffer) (other : Bytes)
      → buffer_bytes key ≢ other
      → value
          (host.set_dynamic_metadata_string s ns key v)
          MetadataSource.dynamic
          (buffer_bytes ns)
          other
        ≡ value s MetadataSource.dynamic (buffer_bytes ns) other
  pub set_number :
      (s : S) (ns key : Buffer) (v : ℕ)
      → value
          (host.set_dynamic_metadata_number s ns key v)
          MetadataSource.dynamic
          (buffer_bytes ns)
          (buffer_bytes key)
        ≡ some (number v)
  pub set_boolean :
      (s : S) (ns key : Buffer) (v : Bool)
      → value
          (host.set_dynamic_metadata_bool s ns key v)
          MetadataSource.dynamic
          (buffer_bytes ns)
          (buffer_bytes key)
        ≡ some (boolean v)
