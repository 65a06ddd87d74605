-- ===== src/Ring.antt =====
-- libs/list.h: the intrusive doubly linked list, as two stores of addresses. A node is its
-- address; a function that writes through pointers returns the new stores.
pub mod Chain
mod Tests
pub mod Laws
pub mod Update
use nkucore.Prelude.{ℕ, Bool, ◌==◌, update}

-- `struct list_entry`, at every address.
pub record Links : Type 0 where
  pub prev : ℕ → ℕ
  pub next : ℕ → ℕ

unfoldable pub list_init : ℕ → Links → Links
list_init elm l = record l { prev = update l.prev elm elm; next = update l.next elm elm }

-- `__list_add`: `prev->next = next->prev = elm; elm->next = next; elm->prev = prev;`
unfoldable pub list_add_between : (elm before after : ℕ) → Links → Links
list_add_between elm before after l = record l {
  prev = update (update l.prev after elm) elm before;
  next = update (update l.next before elm) elm after;
}

-- `__list_del`: `prev->next = next; next->prev = prev;`
unfoldable pub list_del_between : (before after : ℕ) → Links → Links
list_del_between before after l = record l {
  prev = update l.prev after before;
  next = update l.next before after;
}

unfoldable pub list_next : Links → ℕ → ℕ
list_next l elm = l.next elm

unfoldable pub list_prev : Links → ℕ → ℕ
list_prev l elm = l.prev elm

unfoldable pub list_add_after : (listelm elm : ℕ) → Links → Links
unfolding list_add_between
list_add_after listelm elm l = list_add_between elm listelm (l.next listelm) l

unfoldable pub list_add_before : (listelm elm : ℕ) → Links → Links
unfolding list_add_between
list_add_before listelm elm l = list_add_between elm (l.prev listelm) listelm l

unfoldable pub list_add : (listelm elm : ℕ) → Links → Links
unfolding list_add_after
list_add listelm elm l = list_add_after listelm elm l

unfoldable pub list_del : ℕ → Links → Links
unfolding list_del_between
list_del listelm l = list_del_between (l.prev listelm) (l.next listelm) l

unfoldable pub list_del_init : ℕ → Links → Links
unfolding list_del list_init
list_del_init listelm l = list_init listelm (list_del listelm l)

unfoldable pub list_empty : Links → ℕ → Bool
list_empty l head = l.next head == head
