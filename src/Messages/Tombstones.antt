-- ===== src/Messages/Tombstones.antt =====
-- Deleted messages and dismissed link previews, over every run of writes.
use videochat.Prelude.{
  ℕ, ◌≡◌, refl, true, false, Option, none, some, List, [], ◌∷◌, arith, find-holds, is_null, ◌∙◌, ap,
  ◌==◌, find-update,
}
use videochat.Messages.Table.{Chat, MessageRow, MessageMeta}
use videochat.Messages.Edits.{
  soft_delete_message, set_message_link_preview, preview_where, preview_set, alive, edit_set,
  delete_set, null_if_empty, meta_of,
}
use videochat.Messages.Writes.{Write, delete, preview, exec_write, exec_writes}
use videochat.Messages.ById.{IsStable, find_message, exec_writes-Holds}

meta_of-null_if_empty : (meta : MessageMeta) → meta_of (null_if_empty meta) ≡ meta
unfolding null_if_empty
meta_of-null_if_empty meta = ground arith

-- Deleted, and exactly the row `r`.
pub record IsTombstone (t r : MessageRow) : Type 0 where
  pub is_same : r ≡ t
  pub is_deleted : is_null r.deleted_at ≡ false

IsTombstone-IsStable : (t : MessageRow) → IsStable (IsTombstone t)
IsTombstone-IsStable t = record {
  edited = λ id body now mentions r e h. ground arith;
  previewed = λ id p b r e h. ground arith;
  deleted = λ id now r e h. ground arith;
}

-- Dismissed, or deleted; and no preview.
pub record HasNoPreview (r : MessageRow) : Type 0 where
  pub none_shown : (meta_of r.meta).link_preview ≡ none
  pub none_added : is_null r.deleted_at ≡ true → (meta_of r.meta).link_preview_dismissed ≡ true

HasNoPreview-edit :
    (body now : ℕ) (mentions : List ℕ) (r : MessageRow)
    → is_null r.deleted_at ≡ true
    → HasNoPreview r
    → HasNoPreview (edit_set body mentions now r)
HasNoPreview-edit body now [] r e h = record {
  none_shown =
      rw (meta_of-null_if_empty (record (meta_of r.meta) { link_preview = none; mentions = none }))
        refl;
  none_added = λ t.
      rw (meta_of-null_if_empty (record (meta_of r.meta) { link_preview = none; mentions = none }))
        (h.none_added e);
}
HasNoPreview-edit body now (m ∷ ms) r e h = record {
  none_shown =
      rw
        (meta_of-null_if_empty
          (record (meta_of r.meta) { link_preview = none; mentions = some (m ∷ ms) }))
        refl;
  none_added = λ t.
      rw
        (meta_of-null_if_empty
          (record (meta_of r.meta) { link_preview = none; mentions = some (m ∷ ms) }))
        (h.none_added e);
}

HasNoPreview-preview :
    (id : ℕ) (p b : Option ℕ) (r : MessageRow)
    → preview_where id p b r ≡ true
    → HasNoPreview r
    → HasNoPreview (preview_set p r)
HasNoPreview-preview id none b r e h = record { none_shown = refl; none_added = λ t. refl }
HasNoPreview-preview id (some p) b r e h = ground (arith, h.none_added)

HasNoPreview-IsStable : IsStable HasNoPreview
HasNoPreview-IsStable = record {
  edited = λ id body now mentions r e h. HasNoPreview-edit body now mentions r (ground arith) h;
  previewed = λ id p b r e h. HasNoPreview-preview id p b r e h;
  deleted = λ id now r e h. record { none_shown = refl; none_added = λ t. cc };
}

module _ (chat : Chat) (id now : ℕ) (r : MessageRow) (ws : List Write)
    (there : find_message chat.messages id ≡ some r) (alive_ : r.deleted_at ≡ none) where
  -- Once a message has been deleted for everyone, it is the same tombstone after whatever writes
  -- run, with no text and no meta; its number and its sender stay.
  pub deleted_for_good :
      find_message (exec_writes (exec_write chat (delete id now)) ws).messages id
      ≡ some (record r { deleted_at = some now; body = none; meta = none })
  unfolding exec_write soft_delete_message find_message
  deleted_for_good =
      let hit : alive id r ≡ true =
        ground (arith, find-holds (λ x. x.id == id) chat.messages r there) in
      let after : Chat = exec_write chat (delete id now) in
      let t : MessageRow = record r { deleted_at = some now; body = none; meta = none } in
      let m = exec_writes-Holds (IsTombstone t) (IsTombstone-IsStable t) id after ws (record {
        found = t;
        by_id =
            rw (find-update (λ x. x.id == id) (alive id) (delete_set now) chat.messages (λ x. refl))
              (rw there (rw hit refl));
        holds = record { is_same = refl; is_deleted = refl };
      }) in
      m.by_id ∙ ap some m.holds.is_same

  -- Once its sender has dismissed a message's link preview, no write brings one back: not a late
  -- result of fetching it, not an edit.
  pub dismissed_for_good :
      (s : MessageRow) × (find_message
          (exec_writes (exec_write chat (preview id none none)) ws).messages
          id
        ≡ some s)
      × ((meta_of s.meta).link_preview ≡ none)
  unfolding exec_write set_message_link_preview find_message
  dismissed_for_good =
      let hit : preview_where id none none r ≡ true =
        ground (arith, find-holds (λ x. x.id == id) chat.messages r there) in
      let after : Chat = exec_write chat (preview id none none) in
      let m = exec_writes-Holds HasNoPreview HasNoPreview-IsStable id after ws (record {
        found = preview_set none r;
        by_id =
            rw
              (find-update (λ x. x.id == id) (preview_where id none none) (preview_set none)
                chat.messages (λ x. refl))
              (rw there (rw hit refl));
        holds = record { none_shown = refl; none_added = λ t. refl };
      }) in
      (m.found, m.by_id, m.holds.none_shown)
