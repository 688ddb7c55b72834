-- ===== src/Events/Paging.antt =====
-- What a reader that pages through the events by sequence number gets.
use krampus.Prelude.{ℕ, List, ◌≡◌, ◌<◌, take, All, In}
use krampus.Prelude.Order.{last_key, IsAscending, HasDistinctKeys}
use krampus.Prelude.Paging.{
  drop, rows_after, rows_after-All, rows_after-In, rows_after-IsAscending, rows_after-page,
}
use krampus.Events.{DomainEvent, by_sequence, events_after}

pub events_after-All :
    (rows : List DomainEvent) (n : ℕ) → All (λ e. n < e.sequence) (events_after n rows)
unfolding events_after rows_after
events_after-All rows n = rows_after-All by_sequence rows n

pub events_after-In :
    (rows : List DomainEvent) (n : ℕ) (e : DomainEvent)
    → In e rows
    → n < e.sequence
    → In e (events_after n rows)
unfolding events_after rows_after
events_after-In rows n e m l = rows_after-In by_sequence rows n e m l

module _ (rows : List DomainEvent) (distinct : HasDistinctKeys by_sequence rows) where
  pub events_after-IsAscending : (n : ℕ) → IsAscending by_sequence (events_after n rows)
  unfolding events_after rows_after
  events_after-IsAscending n = rows_after-IsAscending by_sequence rows distinct n

  pub events_after-page :
      (n k : ℕ)
      → events_after (last_key by_sequence n (take k (events_after n rows))) rows
        ≡ drop k (events_after n rows)
  unfolding events_after rows_after
  events_after-page n k = rows_after-page by_sequence rows distinct n k
