-- ===== src/Tests/Subscribers.antt =====
-- src/stream.js: two subscribers of one stream.
use yhub.Base.{
  ℕ, Bool, true, false, List, [], ◌∷◌, codes, text_eq, every, is_digit, digits_value, ◌≡◌, refl,
}
use yhub.Message.{prune}
use yhub.Clock.{is_smaller_redis_clock, parse_int, first_part, second_part, min_redis_clock}
use yhub.Stream.Messages.{Stamped}
use yhub.Subscriptions.{
  StreamMessages, Subscriptions, subscribe, update_subs, deliver_all, deliver, merge_updates,
  merge_update, add_update, give, give_each, notify, advance,
}
use yhub.Subscriptions.Order.{
  created, subscribing, updating, delivering, is_ordered, Reach-is_ordered,
}
use yhub.Subscriptions.Complete.{Caught, follow, follow-Caught}

abbrev takes : ℕ → List Stamped → Bool
takes id ms = true

abbrev first : Stamped
first = record { message = prune []; redis_clock = codes "1-0" }

abbrev second : Stamped
second = record { message = prune []; redis_clock = codes "2-0" }

abbrev reply : StreamMessages
reply = record { stream_name = codes "s"; messages = first ∷ second ∷ []; last_clock = codes "2-0" }

abbrev after_reply : Subscriptions
unfolding subscribe update_subs deliver_all
after_reply = deliver_all takes (reply ∷ []) (
    update_subs (
      subscribe (codes "s") 1 (codes "1-0") (
        subscribe (codes "s") 0 (codes "0-0")
          (record { subs = []; sub_updates = []; subscribers = [] }))))

both_received :
    after_reply.subscribers
    ≡ record {
      id = 0;
      last_received_clock = codes "2-0";
      is_closed = false;
      received = first ∷ second ∷ [];
    }
      ∷ record {
        id = 1;
        last_received_clock = codes "2-0";
        is_closed = false;
        received = second ∷ [];
      }
      ∷ []
unfolding after_reply deliver deliver_all merge_updates merge_update add_update give give_each
    notify advance is_smaller_redis_clock parse_int first_part second_part min_redis_clock text_eq
    is_digit digits_value
both_received = refl

Reach-is_ordered_example : every is_ordered after_reply.subscribers ≡ true
unfolding after_reply subscribe update_subs deliver_all is_smaller_redis_clock text_eq parse_int
    first_part second_part is_digit digits_value
Reach-is_ordered_example = Reach-is_ordered takes after_reply (
    delivering
      (updating
        (subscribing (subscribing created (codes "s") 0 (codes "0-0")) (codes "s") 1 (codes "1-0")))
      (reply ∷ []) refl)

abbrev entries : List Stamped
entries = first ∷ second ∷ []

follow-Caught_example :
    Caught entries
      (codes "0")
      (codes "2-0")
      (follow takes (reply ∷ []) (record {
        id = 7;
        last_received_clock = codes "0";
        is_closed = false;
        received = [];
      })).received
unfolding text_eq
follow-Caught_example =
    follow-Caught entries takes 7 (codes "0") (codes "0") (reply ∷ []) refl (λ n. refl)
      ((codes "0", refl, λ x i a b. i), tt)
