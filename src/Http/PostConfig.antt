-- ===== src/Http/PostConfig.antt =====
-- The configuration that POST /config leaves (handle_post_config of server/src/ya_server_http.c).
use mouse_hero.Base.{
  ℕ, zero, suc, ◌≡◌, refl, sym, ap, ◌∙◌, Bool, true, false, Option, none, some, [], if◌then◌else◌,
  inl, inr, ◌+◌, ◌*◌, subst, arith,
}
use mouse_hero.Base.Ascii.{ascii}
use mouse_hero.Config.Lookup.{get-set, Sets, same}
use mouse_hero.Config.{Config, ya_config_set}
use mouse_hero.Http.{
  RequestReader, error_reply, finish_post, post_array, post_entry, post_entries, handle_post_config,
}
use mouse_hero.Wire.{Bytes}

after_if :
    (b : Bool) (x y z : Option Bytes)
    → y ≡ (if b then x else z)
    → (if b then x else y) ≡ (if b then x else z)
after_if true x y z h = refl
after_if false x y z h = h

module _ (mp : RequestReader) (realloc : ℕ → Bool) (opens : Bool) where
  open mp use {
    Reader, init_data, read_tag, expect_map, expect_utf8_cstr, has_error, expect_map_sticks,
    expect_utf8_cstr_sticks, expect_utf8_cstr_empty,
  }

  post_entry-failed :
      (r : Reader) (config : Config)
      → has_error (expect_map r) ≡ true
      → ((post_entry mp realloc opens r config).0
          ≡ (ya_config_set realloc config (some []) (some []) (some [])).1)
        × (has_error (post_entry mp realloc opens r config).1 ≡ true)
  unfolding post_entry
  post_entry-failed r config h0 =
      let r0 = expect_map r in
      let r1 = (expect_utf8_cstr r0 64).1 in
      let h1 = expect_utf8_cstr_sticks r0 64 h0 in
      let r2 = (expect_utf8_cstr r1 64).1 in
      let h2 = expect_utf8_cstr_sticks r1 64 h1 in
      let r3 = (expect_utf8_cstr r2 64).1 in
      let h3 = expect_utf8_cstr_sticks r2 64 h2 in
      let r4 = (expect_utf8_cstr r3 64).1 in
      let h4 = expect_utf8_cstr_sticks r3 64 h3 in
      let r5 = (expect_utf8_cstr r4 64).1 in
      let h5 = expect_utf8_cstr_sticks r4 64 h4 in
      let section = expect_utf8_cstr_empty r1 64 h1 in
      let key = expect_utf8_cstr_empty r3 64 h3 in
      let value = expect_utf8_cstr_empty r5 256 h5 in
      (
        ap
              (λ s.
                (ya_config_set realloc config (some s) (some (expect_utf8_cstr r3 64).0)
                  (some (expect_utf8_cstr r5 256).0)).1)
              section
            ∙ (ap
                  (λ s.
                    (ya_config_set realloc config (some []) (some s)
                      (some (expect_utf8_cstr r5 256).0)).1)
                  key
                ∙ ap (λ s. (ya_config_set realloc config (some []) (some []) (some s)).1) value),
        expect_utf8_cstr_sticks r5 256 h5,
      )

  empty-Sets :
      (config : Config)
      → ((capacity : ℕ) → realloc capacity ≡ true)
      → Sets [] [] [] config (ya_config_set realloc config (some []) (some []) (some [])).1
  empty-Sets config memory = elim (get-set realloc config [] [] [] (omega arith) (omega arith)) [
    | inl (done, s) ↦ s
    | inr (r, absent, full) ↦
        absurd (ground (arith, memory (config.capacity * 2 + 8), full.refused))
  ]

  again-Sets : (c d e : Config) → Sets [] [] [] c d → Sets [] [] [] d e → Sets [] [] [] c e
  again-Sets c d e p q s k = q s k ∙ after_if (same [] [] s k) _ _ _ (p s k)

  post_entries-failed :
      (n : ℕ) (r : Reader) (config : Config)
      → ((capacity : ℕ) → realloc capacity ≡ true)
      → has_error (expect_map r) ≡ true
      → Sets [] [] [] config (post_entries mp realloc opens (suc n) r config).0
        × (has_error (post_entries mp realloc opens (suc n) r config).1 ≡ true)
  post_entries-failed zero r config memory h =
      let (p, q) = post_entry-failed r config h in
      (subst (Sets [] [] [] config) (sym p) (empty-Sets config memory), q)
  post_entries-failed (suc n) r config memory h =
      let (p, q) = post_entry-failed r config h in
      let d = (post_entry mp realloc opens r config).0 in
      let r' = (post_entry mp realloc opens r config).1 in
      let (s, f) = post_entries-failed n r' d memory (expect_map_sticks r' q) in
      (
        again-Sets config d (post_entries mp realloc opens (suc n) r' d).0
            (subst (Sets [] [] [] config) (sym p) (empty-Sets config memory)) s,
        f,
      )

  post_entries-append :
      (good n : ℕ) (r : Reader) (config : Config)
      → let (d, r') = post_entries mp realloc opens good r config in
        post_entries mp realloc opens (good + n) r config ≡ post_entries mp realloc opens n r' d
  post_entries-append zero n r config =
      let same_count : 0 + n ≡ n = omega arith in
      ap (λ m. post_entries mp realloc opens m r config) same_count
  post_entries-append (suc good) n r config =
      let same_count : suc good + n ≡ suc (good + n) = omega arith in
      ap (λ m. post_entries mp realloc opens m r config) same_count
      ∙ post_entries-append good n (post_entry mp realloc opens r config).1
          (post_entry mp realloc opens r config).0

  finish_post-failed :
      (p : Config × Reader)
      → has_error p.1 ≡ true
      → finish_post mp realloc opens p ≡ record {
        reply = error_reply (ascii "Failed to parse request data.");
        config = p.0;
        saved = none;
      }
  finish_post-failed (config, r) h = rw h refl

-- POST /config with an array of more elements than the first `good`, where the next one is no map: the
-- answer is an error and no file is written, and yet the configuration has changed. It holds what the
-- good elements have set, and then the empty text under the empty section and the empty key, since the
-- loop goes on with the empty texts that the reader leaves. There is memory for the array of entries.
pub malformed_post :
    (mp : RequestReader) (realloc : ℕ → Bool) (opens : Bool) (request : Bytes) (config : Config)
    → (good n : ℕ) (r : mp.Reader) → mp.read_tag (mp.init_data request) ≡ (some (good + suc n), r)
    → mp.has_error (mp.expect_map (post_entries mp realloc opens good r config).1) ≡ true
    → ((capacity : ℕ) → realloc capacity ≡ true)
    → let p = handle_post_config mp realloc opens request config in
      (p.reply ≡ error_reply (ascii "Failed to parse request data."))
      × (p.saved ≡ none)
      × Sets [] [] [] (post_entries mp realloc opens good r config).0 p.config
unfolding handle_post_config
malformed_post mp realloc opens request config good n r tag bad memory =
    let q = post_entries mp realloc opens good r config in
    let (s, f) = post_entries-failed mp realloc opens n q.1 q.0 memory bad in
    let e = post_entries-append mp realloc opens good (suc n) r config in
    let p = finish_post-failed mp realloc opens (post_entries mp realloc opens (suc n) q.1 q.0) f in
    let eq : handle_post_config mp realloc opens request config ≡ _ =
      ap (λ t. post_array mp realloc opens t config) tag
      ∙ (ap (finish_post mp realloc opens) e ∙ p) in
    (ap (λ x. x.reply) eq, ap (λ x. x.saved) eq, subst (λ x. Sets [] [] [] q.0 x.config) (sym eq) s)
