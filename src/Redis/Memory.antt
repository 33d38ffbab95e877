-- ===== src/Redis/Memory.antt =====
-- A server that holds its view in memory and meets the laws of `Redis`; for tests.
use yhub.Base.{ℕ, ◌*◌, true, false, [], Text, length, if◌then◌else◌, refl}
use yhub.Clock.{is_smaller_redis_clock, clock_text}
use yhub.Redis.{
  Redis, View, has, after_xadd, after_xreadgroup, after_xack, after_xdel, after_xtrim, after_del,
  after_rename, after_sadd, after_srem,
}

pub record Memory : Type 0 where
  pub view : View
  pub seconds : ℕ

-- Nothing is stored.
abbrev pub empty_view : View
empty_view = record {
  exists = λ k. false;
  stream = λ k. [];
  is_member = λ set k. false;
  undelivered = [];
  pending = [];
}

abbrev at_view : (View → View) → Memory → Memory
at_view f s = record s { view = f s.view }

-- Ids count the entries of a stream within the current second.
abbrev memory_id : Text → Memory → Text
memory_id k s = clock_text (s.seconds * 1000) (length (s.view.stream k))

abbrev pub memory : (worker : Text) → Redis worker
memory worker = record {
  Db = Memory;
  view = λ s. s.view;
  seconds = λ s. s.seconds;
  next_id = memory_id;
  xadd = λ k p s. at_view (after_xadd worker k (memory_id k s) p) s;
  xreadgroup = at_view after_xreadgroup;
  xack = λ t s. (has t s.view.pending, at_view (after_xack t) s);
  xdel = λ t. at_view (after_xdel worker t);
  xtrim_minid = λ k minid. at_view (after_xtrim (λ i. is_smaller_redis_clock i minid) k);
  xtrim_all = λ k. at_view (after_xtrim (λ i. true) k);
  del = λ k. at_view (after_del k);
  rename =
      λ k j s. (s.view.exists k, at_view (λ v. if v.exists k then after_rename k j v else v) s);
  sadd = λ set k. at_view (after_sadd set k);
  srem = λ set k s. (s.view.is_member set k, at_view (after_srem set k) s);
  view-xadd = λ k p s. refl;
  view-xreadgroup = λ s. refl;
  xack_reply = λ t s. refl;
  view-xack = λ t s. refl;
  view-xdel = λ t s. refl;
  view-xtrim_minid = λ k minid s h. refl;
  view-xtrim_all = λ k s h. refl;
  view-del = λ k s h. refl;
  rename_reply = λ k j s. refl;
  view-rename = λ k j s h h'. refl;
  view-sadd = λ set k s. refl;
  srem_reply = λ set k s. refl;
  view-srem = λ set k s. refl;
}
