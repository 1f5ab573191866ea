-- ===== src/Opencode/Pending.antt =====
-- internal/opencode/sse.go: the counters of the texts that wait for their message, and the limits of a tracker.
use aisummoner.Prelude.{
  ℕ, ◌+◌, ◌-◌, ◌≤◌, ◌<◌, ◌==◌, ◌≡◌, refl, ap, false, not, ◌&&◌, ◌||◌, List, [], ◌∷◌, ◌++◌, any,
  delete, length, leb, ltb, arith, inl, inr, Bool-cases, length-append,
}
use aisummoner.Prelude.Keyed.{has_key, Distinct, Distinct-delete}
use aisummoner.Prelude.Deletion.{length-delete, delete_absent}
use aisummoner.Store.Data.{RowId}
use aisummoner.Agent.Registry.{put}
use aisummoner.Agent.Registry.Maps.{Distinct-put}
use aisummoner.Opencode.Tracker.{PendingText, MessageRow, Tracker}
use aisummoner.Opencode.Parts.{Books, books_of}
use aisummoner.Opencode.Events.{
  content_size, add_pending, queue, cleared_records, cleared_bytes, clear_pending,
  maximum_message_roles, maximum_pending_parts, maximum_event_ids, max_message_bytes,
}

abbrev pub total : List PendingText → ℕ
total [] = 0
total (p ∷ ps) = content_size (p.content) + total ps

-- The counters are those of the texts that wait, and the limits hold.
pub record IsCounted (b : Books) : Type 0 where
  pub records : b.pending_records ≡ length (b.pending)
  pub bytes : b.pending_bytes ≡ total (b.pending)
  pub records_bound : b.pending_records ≤ maximum_pending_parts
  pub bytes_bound : b.pending_bytes ≤ max_message_bytes
  pub seen_bound : length (b.seen_ids) ≤ maximum_event_ids
  pub messages_distinct : Distinct MessageRow.id (b.messages)
  pub messages_bound : length (b.messages) ≤ maximum_message_roles

total-append :
    (ps : List PendingText) (p : PendingText)
    → total (ps ++ p ∷ []) ≡ total ps + content_size (p.content)
total-append [] p = omega arith
total-append (q ∷ ps) p = omega (arith, total-append ps p)

cleared_records-length :
    (m : RowId) (ps : List PendingText)
    → length (delete (λ p. p.message == m) ps) + cleared_records m ps ≡ length ps
unfolding delete
cleared_records-length m [] = refl
cleared_records-length m (p ∷ ps) = ground (arith, cleared_records-length m ps)

cleared_bytes-total :
    (m : RowId) (ps : List PendingText)
    → total (delete (λ p. p.message == m) ps) + cleared_bytes m ps ≡ total ps
unfolding delete
cleared_bytes-total m [] = refl
cleared_bytes-total m (p ∷ ps) = ground (arith, cleared_bytes-total m ps)

add_pending-IsCounted :
    (p : PendingText) (t : Tracker)
    → IsCounted (books_of t)
    → t.pending_records < maximum_pending_parts
    → t.pending_bytes + content_size (p.content) ≤ max_message_bytes
    → IsCounted (books_of (add_pending p t))
add_pending-IsCounted p t c r s = record {
  records = omega (arith, c.records, length-append (t.pending) (p ∷ []));
  bytes = omega (arith, c.bytes, total-append (t.pending) p);
  records_bound = omega (arith, r);
  bytes_bound = s;
  seen_bound = c.seen_bound;
  messages_distinct = c.messages_distinct;
  messages_bound = c.messages_bound;
}

pub queue-IsCounted :
    (p : PendingText) (t : Tracker) → IsCounted (books_of t) → IsCounted (books_of (queue p t).1)
unfolding queue
queue-IsCounted p t c = elim (Bool-cases (p.message == 0)) [
  | inl empty ↦ rw (empty, queue) c
  | inr named ↦
      elim (Bool-cases (
        leb maximum_pending_parts (t.pending_records)
        || ltb max_message_bytes (content_size (p.content))
        || ltb (max_message_bytes - content_size (p.content)) (t.pending_bytes))) [
          | inl over ↦ rw (named, over, queue) c
          | inr room ↦
              rw (named, room, queue)
                (add_pending-IsCounted p t c (ground (arith, room)) (ground (arith, room)))
        ]
]

pub clear_pending-IsCounted :
    (m : RowId) (t : Tracker) → IsCounted (books_of t) → IsCounted (books_of (clear_pending m t))
unfolding clear_pending
clear_pending-IsCounted m t c = record {
  records = omega (arith, c.records, cleared_records-length m (t.pending));
  bytes = omega (arith, c.bytes, cleared_bytes-total m (t.pending));
  records_bound = omega (arith, c.records_bound);
  bytes_bound = omega (arith, c.bytes_bound);
  seen_bound = c.seen_bound;
  messages_distinct = c.messages_distinct;
  messages_bound = c.messages_bound;
}

-- A message that is known, or for which there is room, keeps the table in its limit.
pub put_bound :
    (row : MessageRow) (rows : List MessageRow)
    → Distinct MessageRow.id rows
    → length rows ≤ maximum_message_roles
    → (leb maximum_message_roles (length rows) && not (any (has_key MessageRow.id (row.id)) rows))
      ≡ false
    → (Distinct MessageRow.id (put MessageRow.id row rows))
      × (length (put MessageRow.id row rows) ≤ maximum_message_roles)
unfolding put
put_bound row rows d n room = (
  Distinct-put MessageRow.id row rows (Distinct-delete MessageRow.id _ rows d),
  elim (Bool-cases (any (has_key MessageRow.id (row.id)) rows)) [
    | inl known ↦ omega (arith, n, length-delete MessageRow.id (row.id) rows d known)
    | inr new ↦ omega (arith, ap length (delete_absent MessageRow.id (row.id) rows new), below new)
  ],
)
  where
    below : any (has_key MessageRow.id (row.id)) rows ≡ false → length rows < maximum_message_roles
    below new = ground (arith, room, new)
