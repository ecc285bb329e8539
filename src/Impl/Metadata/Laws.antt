-- ===== src/Impl/Metadata/Laws.antt =====
-- The metadata methods over a host that keeps what abi.h documents.
use luwes.Base.{ℕ, ◌≡◌, refl, ap, ◌∙◌, Bool, true, false, [], ◌∷◌}
use luwes.Base.Bytes.{Bytes}
use luwes.Abi.Buffer.{Buffer, null, view, buffer_bytes}
use luwes.Abi.Common.{MetadataSource}
use luwes.Abi.Metadata.{MetadataCallbacks, MetadataLaws, text_of, number_of, boolean_of}
use luwes.Impl.Buffers.{string_to_module_buffer, buffer_bytes-string_to_module_buffer}
use luwes.Impl.Metadata.{
  NumberKind, GoValue, or_zero, unless_empty, get_metadata_string, get_metadata_number,
  get_metadata_bool, set_metadata,
}

-- What `GetMetadataString` answers to a text: an empty one is not found.
abbrev pub text_answer : Bytes → Bool × Buffer
text_answer [] = (false, null)
text_answer (c ∷ v) = (true, view (c ∷ v))

pub unless_empty-view : (v : Bytes) → unless_empty (true, view v) ≡ text_answer v
unless_empty-view [] = refl
unless_empty-view (c ∷ v) = refl

module _ {S : Type 0} (host : MetadataCallbacks S) (law : MetadataLaws host) (nil_data : Bool)
    (to_double : NumberKind → ℕ → ℕ) (s : S) (ns key : Bytes) where
  abbrev sent : Bytes → Buffer
  sent b = string_to_module_buffer nil_data b

  received : (b : Bytes) → buffer_bytes (sent b) ≡ b
  received b = buffer_bytes-string_to_module_buffer nil_data b

  -- On a host that keeps what abi.h documents, the getter of a value's kind reads what `SetMetadata`
  -- has stored: a number of any of Go's types as its conversion to a `float64`, a Boolean, and a
  -- non-empty text; an empty text is reported as not found.
  pub get_metadata-set_metadata :
      (kind : NumberKind) (n : ℕ) (b : Bool) (v : Bytes)
      → (get_metadata_number host nil_data to_double
            (set_metadata host nil_data to_double s ns key (GoValue.number kind n))
            MetadataSource.dynamic
            ns
            key
          ≡ (true, to_double kind n))
        × (get_metadata_bool host nil_data to_double
              (set_metadata host nil_data to_double s ns key (GoValue.boolean b))
              MetadataSource.dynamic
              ns
              key
            ≡ (true, b))
        × (get_metadata_string host nil_data to_double
              (set_metadata host nil_data to_double s ns key (GoValue.text v))
              MetadataSource.dynamic
              ns
              key
            ≡ text_answer v)
  unfolding get_metadata_number get_metadata_bool get_metadata_string set_metadata
  get_metadata-set_metadata kind n b v = (
    ap (or_zero 0) (
        law.get_number (host.set_dynamic_metadata_number s (sent ns) (sent key) (to_double kind n))
          MetadataSource.dynamic (sent ns) (sent key)
        ∙ ap number_of (law.set_number s (sent ns) (sent key) (to_double kind n))),
    ap (or_zero false) (
        law.get_boolean (host.set_dynamic_metadata_bool s (sent ns) (sent key) b)
          MetadataSource.dynamic (sent ns) (sent key)
        ∙ ap boolean_of (law.set_boolean s (sent ns) (sent key) b)),
    ap unless_empty (
          law.get_text (host.set_dynamic_metadata_string s (sent ns) (sent key) (sent v))
            MetadataSource.dynamic (sent ns) (sent key)
          ∙ ap text_of (law.set_text s (sent ns) (sent key) (sent v)))
        ∙ ap (λ x. unless_empty (true, view x)) (received v)
        ∙ unless_empty-view v,
  )
