-- ===== src/Playback/Same/Symmetric.antt =====
-- Being the same playback is symmetric.
use relaytv.Prelude.{
  codes_eq, ≟_iff, ◌≡◌, refl, Bool, ◌&&◌, ◌||◌, Option, none, ◌≟◌, Text, codes, is_empty, contains,
  arith, ap, ◌∙◌,
}
use relaytv.Prelude.Value.{Fields}
use relaytv.Playback.Same.{
  Media, missing, item, words, thing, both, or_decided, extract_item_url, same_url,
  same_playback_item, decided, field, jellyfin_id, same_history, same_iptv, partial_iptv, full_iptv,
  if_both, placeholder_urls,
}

≟_sym : (a b : Text) → (a ≟ b) ≡ (b ≟ a)
≟_sym a b = ground (arith, ≟_iff a b, ≟_iff b a)

both_comm : (a b : Text) → both a b ≡ both b a
both_comm a b = ground arith

same_history_comm : (l r : Fields) → same_history l r ≡ same_history r l
unfolding same_history
same_history_comm l r =
    rw
      (
        both_comm (field l (codes "history_id")) (field r (codes "history_id")),
        ≟_sym (field l (codes "history_id")) (field r (codes "history_id")),
      )
      refl

same_iptv_comm : (l r : Fields) → same_iptv l r ≡ same_iptv r l
unfolding same_iptv
same_iptv_comm l r =
    rw
      (
        ≟_sym (field l (codes "iptv_source_id")) (field r (codes "iptv_source_id")),
        ≟_sym (field l (codes "iptv_channel_id")) (field r (codes "iptv_channel_id")),
      )
      refl

or_comm : (a b : Bool) → (a || b) ≡ (b || a)
or_comm a b = ground arith

and_comm : (a b : Bool) → (a && b) ≡ (b && a)
and_comm a b = ground arith

if_both_comm : (l r : Text) (o : Option Bool) → if_both l r o ≡ if_both r l o
if_both_comm l r o = rw (both_comm l r, ≟_sym l r) refl

decided_comm : (l r : Fields) → decided l r ≡ decided r l
unfolding decided
decided_comm l r =
    rw
      (
        same_history_comm l r,
        or_comm (partial_iptv l) (partial_iptv r),
        and_comm (full_iptv l) (full_iptv r),
        same_iptv_comm l r,
        if_both_comm (jellyfin_id l) (jellyfin_id r) none,
        both_comm (field l (codes "plex_item_id")) (field r (codes "plex_item_id")),
        ≟_sym (field l (codes "plex_item_id")) (field r (codes "plex_item_id")),
      )
      refl

same_url_comm :
    (is_youtube : Text → Bool) (youtube_id : Text → Text) (l r : Text)
    → same_url is_youtube youtube_id l r ≡ same_url is_youtube youtube_id r l
unfolding same_url
same_url_comm is_youtube youtube_id l r =
    rw
      (
        or_comm (is_empty l) (is_empty r),
        or_comm (contains placeholder_urls l) (contains placeholder_urls r),
        and_comm (is_youtube l) (is_youtube r),
        both_comm (youtube_id l) (youtube_id r),
        ≟_sym (youtube_id l) (youtube_id r),
        ≟_sym l r,
      )
      refl

-- Whether two things are the same playback does not depend on which one is asked about, with the
-- fallback URLs swapped along.
pub same_playback_item_comm :
    (is_youtube : Text → Bool) (youtube_id clean_url : Text → Text) (left right : Media)
    (left_url right_url : Text)
    → same_playback_item is_youtube youtube_id clean_url left right left_url right_url
      ≡ same_playback_item is_youtube youtube_id clean_url right left right_url left_url
unfolding same_playback_item
same_playback_item_comm is_youtube youtube_id clean_url missing missing left_url right_url = refl
same_playback_item_comm is_youtube youtube_id clean_url missing (item r) left_url right_url = refl
same_playback_item_comm is_youtube youtube_id clean_url missing (words r) left_url right_url = refl
same_playback_item_comm is_youtube youtube_id clean_url missing thing left_url right_url = refl
same_playback_item_comm is_youtube youtube_id clean_url (item l) missing left_url right_url = refl
same_playback_item_comm is_youtube youtube_id clean_url (item l) (item r) left_url right_url =
    ap
      (λ d. or_decided d (
        same_url is_youtube youtube_id (extract_item_url clean_url (item l) left_url)
          (extract_item_url clean_url (item r) right_url)))
      (decided_comm l r)
    ∙ ap (or_decided (decided r l)) (
        same_url_comm is_youtube youtube_id (extract_item_url clean_url (item l) left_url)
          (extract_item_url clean_url (item r) right_url))
same_playback_item_comm is_youtube youtube_id clean_url (item l) (words r) left_url right_url =
    same_url_comm is_youtube youtube_id (extract_item_url clean_url (item l) left_url)
      (extract_item_url clean_url (words r) right_url)
same_playback_item_comm is_youtube youtube_id clean_url (item l) thing left_url right_url =
    same_url_comm is_youtube youtube_id (extract_item_url clean_url (item l) left_url)
      (extract_item_url clean_url thing right_url)
same_playback_item_comm is_youtube youtube_id clean_url (words l) missing left_url right_url = refl
same_playback_item_comm is_youtube youtube_id clean_url (words l) (item r) left_url right_url =
    same_url_comm is_youtube youtube_id (extract_item_url clean_url (words l) left_url)
      (extract_item_url clean_url (item r) right_url)
same_playback_item_comm is_youtube youtube_id clean_url (words l) (words r) left_url right_url =
    same_url_comm is_youtube youtube_id (extract_item_url clean_url (words l) left_url)
      (extract_item_url clean_url (words r) right_url)
same_playback_item_comm is_youtube youtube_id clean_url (words l) thing left_url right_url =
    same_url_comm is_youtube youtube_id (extract_item_url clean_url (words l) left_url)
      (extract_item_url clean_url thing right_url)
same_playback_item_comm is_youtube youtube_id clean_url thing missing left_url right_url = refl
same_playback_item_comm is_youtube youtube_id clean_url thing (item r) left_url right_url =
    same_url_comm is_youtube youtube_id (extract_item_url clean_url thing left_url)
      (extract_item_url clean_url (item r) right_url)
same_playback_item_comm is_youtube youtube_id clean_url thing (words r) left_url right_url =
    same_url_comm is_youtube youtube_id (extract_item_url clean_url thing left_url)
      (extract_item_url clean_url (words r) right_url)
same_playback_item_comm is_youtube youtube_id clean_url thing thing left_url right_url =
    same_url_comm is_youtube youtube_id (extract_item_url clean_url thing left_url)
      (extract_item_url clean_url thing right_url)
