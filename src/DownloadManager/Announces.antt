-- ===== src/DownloadManager/Announces.antt =====
-- The announce that generate_url of download_manager.cpp takes.
use torrent_client.Base.{
  ◌≡◌, refl, sym, ap, ◌∙◌, Bytes, codes, List, [], ◌∷◌, ◌++◌, append-nil, Bool, true, false,
}
use torrent_client.TorrentFile.{TorrentFile}
use torrent_client.DownloadManager.{
  Url, DownloadManager, made, failed, is_empty, generate_init_http_request, is_available, valid_url,
  request_path, url_for, generate_url,
}

module _ (url_of : Bytes → Url) (finds_host : Bytes → Bool) where
  abbrev pub NoneAvailable : List Bytes → Type 0
  NoneAvailable [] = Unit {0}
  NoneAvailable (announce ∷ rest) =
      (is_available url_of finds_host announce ≡ false) × NoneAvailable rest

  valid_url-behind :
      (before rest : List Bytes)
      → NoneAvailable before
      → valid_url url_of finds_host (before ++ rest) ≡ valid_url url_of finds_host rest
  unfolding valid_url
  valid_url-behind [] rest h = refl
  valid_url-behind (announce ∷ before) rest h = rw h.0 (valid_url-behind before rest h.1)

  valid_url-first :
      (announce : Bytes) (rest : List Bytes)
      → is_available url_of finds_host announce ≡ true
      → valid_url url_of finds_host (announce ∷ rest) ≡ announce
  unfolding valid_url
  valid_url-first announce rest h = rw h refl

  -- If no announce before a certain one is available and that one is, and is not empty, generate_url
  -- is the address of that announce, followed by the request for the torrent, whose peer id has the
  -- right length.
  pub generate_url-first :
      (t : TorrentFile) (torrents : DownloadManager) (before after : List Bytes) (announce : Bytes)
      → t.announce ∷ t.announce_list ≡ before ++ announce ∷ after
      → NoneAvailable before
      → is_available url_of finds_host announce ≡ true
      → is_empty announce ≡ false
      → (request : Bytes) × ((generate_init_http_request t (codes "-2345678901234567890") 12345
            ≡ made request)
          × (generate_url url_of finds_host (t ∷ torrents)
              ≡ made (request_path url_of finds_host (url_of announce) ++ request)))
  unfolding generate_url generate_init_http_request
  generate_url-first t torrents before after announce listed skipped available named = (
    _,
    (
      refl,
      ap (λ announces. url_for url_of finds_host t (valid_url url_of finds_host announces)) listed
          ∙ ap (url_for url_of finds_host t) (
              valid_url-behind before (announce ∷ after) skipped
              ∙ valid_url-first announce after available)
          ∙ rw named refl,
    ),
  )

  -- Where no announce is available, generate_url throws that there is no valid one.
  pub generate_url-none :
      (t : TorrentFile) (torrents : DownloadManager)
      → NoneAvailable (t.announce ∷ t.announce_list)
      → generate_url url_of finds_host (t ∷ torrents) ≡ failed "no valid announce"
  unfolding generate_url valid_url
  generate_url-none t torrents none = rw none.0 (
      ap (url_for url_of finds_host t) (
        ap (valid_url url_of finds_host) (sym (append-nil t.announce_list))
        ∙ valid_url-behind t.announce_list [] none.1))
