-- ===== src/Storage/Laws.antt =====
-- `StaticVector` is a storage.
use bcnp.Storage.{Storage, IsStorage}
use bcnp.Storage.Inner.{Inner, IsInner}
use bcnp.Storage.Vector.{StaticVector, new_vector, size, is_empty, push_back, pop_back, clear}
use bcnp.Storage.Copying.{push_back_fits, push_back_full}

module _ {T : Type 0} (c : Inner T) where
  -- The vector as a storage.
  unfoldable pub static_storage : Storage T
  static_storage = record {
    V = StaticVector c;
    fresh = new_vector c;
    size = size c;
    empty = is_empty c;
    get = λ v i. c.unchecked v.inner i;
    put = λ v i x. record { inner = c.assign v.inner i x };
    push_back = push_back c;
    pop_back = pop_back c;
    clear = clear c;
  }

  -- The vector keeps the promises of a storage of its capacity.
  pub static_storage-IsStorage :
      (blank : T) → IsInner c blank → IsStorage static_storage blank c.capacity
  unfolding static_storage pop_back clear
  static_storage-IsStorage blank law = record {
    items = λ v. law.items v.inner;
    fresh_items = law.fresh_items;
    size_is = λ v. law.size_is v.inner;
    empty_is = λ v. law.empty_is v.inner;
    get_is = λ v. law.unchecked_is v.inner;
    put_is = λ v. law.assign_is v.inner;
    push_back_fits = push_back_fits c blank law;
    push_back_full = push_back_full c blank law;
    pop_back_is = λ v. law.pop_back_is v.inner;
    clear_is = λ v. law.clear_is v.inner;
  }
