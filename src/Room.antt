-- ===== src/Room.antt =====
-- `$room` of src/types.js.
use yhub.Base.{Text, Bool, ◌&&◌, text_eq, ◌≡◌, ◌↔◌, true, arith, text_eq_iff}
use yhub.Uri.{IsUnicode}

pub record Room : Type 0 where
  pub org : Text
  pub docid : Text
  pub branch : Text

-- A room whose three texts `encodeURIComponent` accepts.
pub record IsEncodable (room : Room) : Type 0 where
  pub org : IsUnicode room.org
  pub docid : IsUnicode room.docid
  pub branch : IsUnicode room.branch

-- Whether two rooms are the same, as the keys of a table compare.
unfoldable pub room_eq : Room → Room → Bool
room_eq a b = text_eq a.org b.org && text_eq a.docid b.docid && text_eq a.branch b.branch

pub room_eq_iff : (a b : Room) → (room_eq a b ≡ true) ↔ (a ≡ b)
unfolding room_eq
room_eq_iff a b = (
  λ h.
      ground (
        arith,
        text_eq_iff a.org b.org,
        text_eq_iff a.docid b.docid,
        text_eq_iff a.branch b.branch,
      ),
  λ h.
      ground (
        arith,
        text_eq_iff a.org b.org,
        text_eq_iff a.docid b.docid,
        text_eq_iff a.branch b.branch,
      ),
)
