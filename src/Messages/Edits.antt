-- ===== src/Messages/Edits.antt =====
-- `setMessageLinkPreview`, `editMessageBody` and `softDeleteMessage` of
-- apps/api/src/db/messages.ts: statements on one row of the messages table.
use videochat.Prelude.{
  ℕ, Bool, true, false, not, ◌&&◌, Option, none, some, List, [], ◌∷◌, head?, update, returning,
  ◌==◌, null_eq, is_null,
}
use videochat.Messages.Table.{MessageRow, MessageMeta, empty_meta}

-- `coalesce(meta, '{}')`.
abbrev pub meta_of : Option MessageMeta → MessageMeta
meta_of none = empty_meta
meta_of (some meta) = meta

-- `nullif(meta, '{}')`.
unfoldable pub null_if_empty : MessageMeta → Option MessageMeta
null_if_empty meta = elim meta.call [
  | some a ↦ some meta
  | none ↦ elim meta.attachment [
    | some a ↦ some meta
    | none ↦ elim meta.link_preview [
      | some a ↦ some meta
      | none ↦ elim meta.link_preview_dismissed [
        | true ↦ some meta
        | false ↦ elim meta.mentions [
          | some a ↦ some meta
          | none ↦ elim meta.e2ee [ some a ↦ some meta | none ↦ none ]
        ]
      ]
    ]
  ]
]

abbrev pub matches_body : Option ℕ → MessageRow → Bool
matches_body none r = true
matches_body (some body) r = null_eq r.body body

-- A preview is only added where none was dismissed; `null` may always be set.
abbrev pub may_preview : Option ℕ → MessageRow → Bool
may_preview none r = true
may_preview (some preview) r = not (meta_of r.meta).link_preview_dismissed

abbrev pub preview_where : ℕ → Option ℕ → Option ℕ → MessageRow → Bool
preview_where id preview expected_body r =
    r.id == id && is_null r.deleted_at && matches_body expected_body r && may_preview preview r

abbrev pub preview_set : Option ℕ → MessageRow → MessageRow
preview_set (some preview) r = record r {
  meta = some (record (meta_of r.meta) { link_preview = some preview });
}
preview_set none r = record r {
  meta = some (record (meta_of r.meta) { link_preview = none; link_preview_dismissed = true });
}

unfoldable pub set_message_link_preview :
    List MessageRow → ℕ → Option ℕ → Option ℕ → List MessageRow × Option MessageRow
set_message_link_preview messages id preview expected_body = (
  update (preview_where id preview expected_body) (preview_set preview) messages,
  head? (returning (preview_where id preview expected_body) (preview_set preview) messages),
)

abbrev pub alive : ℕ → MessageRow → Bool
alive id r = r.id == id && is_null r.deleted_at

-- `meta - 'linkPreview' - 'mentions'`, and the new text's mentions.
abbrev pub meta_for_text : List ℕ → MessageMeta → MessageMeta
meta_for_text [] meta = record meta { link_preview = none; mentions = none }
meta_for_text (m ∷ ms) meta = record meta { link_preview = none; mentions = some (m ∷ ms) }

abbrev pub edit_set : ℕ → List ℕ → ℕ → MessageRow → MessageRow
edit_set body mentions now r = record r {
  body = some body;
  edited_at = some now;
  meta = null_if_empty (meta_for_text mentions (meta_of r.meta));
}

unfoldable pub edit_message_body :
    List MessageRow → ℕ → ℕ → List ℕ → ℕ → List MessageRow × Option MessageRow
edit_message_body messages id body mentions now = (
  update (alive id) (edit_set body mentions now) messages,
  head? (returning (alive id) (edit_set body mentions now) messages),
)

abbrev pub delete_set : ℕ → MessageRow → MessageRow
delete_set now r = record r { deleted_at = some now; body = none; meta = none }

unfoldable pub soft_delete_message : List MessageRow → ℕ → ℕ → List MessageRow × Option MessageRow
soft_delete_message messages id now = (
  update (alive id) (delete_set now) messages,
  head? (returning (alive id) (delete_set now) messages),
)
