-- ===== src/Dispatcher/Handlers.antt =====
-- Which handler a packet goes to.
use bcnp.Base.{
  ℕ, ◌≡◌, refl, ap, ◌∙◌, arith, Bool, true, false, Option, none, some, List, [], ◌∷◌, ◌==◌,
  if◌then◌else◌,
}
use bcnp.Base.Words.{u16}
use bcnp.Queue.{Time}
use bcnp.Packet.Types.{PacketView}
use bcnp.Dispatcher.{
  PacketDispatcher, PacketHandler, find, insert_or_assign, erase, call_handler, register_handler,
  unregister_handler, handle_packet,
}

module _ {ℓ} {H : Type ℓ} where
  pub find-insert_or_assign :
      (entries : List (ℕ × H)) (id k : ℕ) (h : H)
      → find (insert_or_assign entries id h) k ≡ (if id == k then some h else find entries k)
  find-insert_or_assign [] id k h = refl
  find-insert_or_assign (entry ∷ rest) id k h =
      let later = find-insert_or_assign rest id k h in ground (arith, later)

  pub find-erase :
      (entries : List (ℕ × H)) (id k : ℕ)
      → find (erase entries id) k ≡ (if id == k then none else find entries k)
  find-erase [] id k = ground arith
  find-erase (entry ∷ rest) id k = let later = find-erase rest id k in ground (arith, later)

module _ {ℓ} {S : Type ℓ} where
  -- A registered handler gets the packets of its type, in place of the one that was there, and after
  -- it is unregistered no handler does; the packets of the other types go where they went before.
  pub handlers_change :
      (clock : ℕ → Time) (d : PacketDispatcher S) (id : ℕ) (h : PacketHandler S) (v : PacketView)
      → let same = u16 id == u16 v.header.message_type in
        ((handle_packet clock (register_handler d id h) v).user
          ≡ (if same then h v d.user else (handle_packet clock d v).user))
        × ((handle_packet clock (unregister_handler d id) v).user
            ≡ (if same then d.user else (handle_packet clock d v).user))
  unfolding register_handler unregister_handler handle_packet
  handlers_change clock d id h v =
      let type_id = u16 v.header.message_type in
      (
        ap (λ r. call_handler r v d.user) (find-insert_or_assign d.handlers (u16 id) type_id h)
            ∙ choice (u16 id == type_id) (some h) (find d.handlers type_id) v d.user,
        ap (λ r. call_handler r v d.user) (find-erase d.handlers (u16 id) type_id)
            ∙ choice (u16 id == type_id) none (find d.handlers type_id) v d.user,
      )
    where
      choice :
          (b : Bool) (x y : Option (PacketHandler S)) (v : PacketView) (s : S)
          → call_handler (if b then x else y) v s
            ≡ (if b then call_handler x v s else call_handler y v s)
      choice true x y v s = refl
      choice false x y v s = refl
