-- ===== src/Transcription/Inspection/Hosts.antt =====
-- The supported hosts of transcription/inspection.py.
use textify.Prelude.{Bool, ◌||◌, List, [], ◌∷◌, ◌++◌, any}
use textify.Texts.{Text, codes, starts_with, ends_with}
use textify.Transcription.Fields.{Platform, youtube, instagram, facebook, tiktok, x}

abbrev pub youtube_hosts : List Text
youtube_hosts =
    codes "youtube.com"
    ∷ codes "www.youtube.com"
    ∷ codes "m.youtube.com"
    ∷ codes "music.youtube.com"
    ∷ codes "youtu.be"
    ∷ []

abbrev pub instagram_hosts : List Text
instagram_hosts = codes "instagram.com" ∷ codes "www.instagram.com" ∷ []

abbrev pub facebook_hosts : List Text
facebook_hosts = codes "facebook.com" ∷ codes "www.facebook.com" ∷ codes "m.facebook.com" ∷ []

abbrev pub facebook_short_hosts : List Text
facebook_short_hosts = codes "fb.watch" ∷ []

abbrev pub tiktok_hosts : List Text
tiktok_hosts = codes "www.tiktok.com" ∷ []

abbrev pub tiktok_short_hosts : List Text
tiktok_short_hosts = codes "vm.tiktok.com" ∷ codes "vt.tiktok.com" ∷ []

abbrev pub x_hosts : List Text
x_hosts =
    codes "x.com"
    ∷ codes "www.x.com"
    ∷ codes "m.x.com"
    ∷ codes "mobile.x.com"
    ∷ codes "twitter.com"
    ∷ codes "www.twitter.com"
    ∷ codes "m.twitter.com"
    ∷ codes "mobile.twitter.com"
    ∷ []

abbrev pub x_short_hosts : List Text
x_short_hosts = codes "t.co" ∷ []

unfoldable pub supported_hosts : List Text
supported_hosts =
    youtube_hosts
    ++ (instagram_hosts
        ++ (facebook_hosts
            ++ (facebook_short_hosts
                ++ (tiktok_hosts ++ (tiktok_short_hosts ++ (x_hosts ++ x_short_hosts))))))

unfoldable pub platform_hosts : Platform → List Text
platform_hosts youtube = youtube_hosts
platform_hosts instagram = instagram_hosts
platform_hosts facebook = facebook_hosts
platform_hosts tiktok = tiktok_hosts
platform_hosts x = x_hosts

unfoldable pub short_hosts : List Text
short_hosts = facebook_short_hosts ++ (tiktok_short_hosts ++ x_short_hosts)

unfoldable pub looks_like_supported_host_trick : Text → Bool
unfolding any starts_with ends_with supported_hosts
looks_like_supported_host_trick host =
    any
      (λ supported.
        starts_with (supported ++ codes ".") host || ends_with (codes "." ++ supported) host)
      supported_hosts
