-- ===== src/Copilot/Policy/Table.antt =====
-- The classification table of backend/ai_copilot/application/operator_copilot_policy.py
-- (`_CLASSIFICATIONS`, `_UNKNOWN_TOOL_BLOCK`, `_INTENTIONAL_POLICY_ONLY_EXCEPTIONS`): one list for each
-- part of the table, in the source's order.
use insta.Prelude.{String, Bool, true, false, List, [], ◌∷◌, ◌++◌}

-- `ToolPolicy`
pub data ToolPolicy : Type 0 where
  read_only write_sensitive blocked : ToolPolicy

-- `ToolClassification`
pub record ToolClassification : Type 0 where
  pub policy : ToolPolicy
  pub requires_approval : Bool
  pub reason : String

abbrev pub Entry : Type 0
Entry = String × ToolClassification

-- one row of the table
abbrev pub entry : String → ToolPolicy → Bool → String → Entry
entry name p a r = (name, record { policy = p; requires_approval = a; reason = r })

abbrev pub unknown_tool_block : ToolClassification
unknown_tool_block = record {
  policy = blocked;
  requires_approval = false;
  reason = "unknown tool — not in allowlist";
}

abbrev pub app_operator_tools : List Entry
app_operator_tools =
    entry "list_accounts" read_only false "lists all managed accounts and their status"
    ∷ entry "list_proxy_pool" read_only false "reads the current proxy pool and its health status"
    ∷ entry "pick_proxy" read_only false "reads one working proxy candidate from the pool"
    ∷ entry "get_post_jobs" read_only false "reads recent post jobs and their status"
    ∷ entry "relogin_account" write_sensitive true
        "re-authenticates an account (modifies session state)"
    ∷ entry "logout_account" write_sensitive true "removes an account from the system"
    ∷ entry "set_account_proxy" write_sensitive true "modifies account proxy configuration"
    ∷ entry "set_account_privacy" write_sensitive true
        "toggles account privacy (public ↔ private), changes audience for all posts"
    ∷ entry "edit_account_profile" write_sensitive true
        "edits the authenticated account's profile fields (name, biography, external URL)"
    ∷ entry "set_account_presence" write_sensitive true
        "toggles the 'show activity status' presence flag for the account"
    ∷ entry "import_proxies" write_sensitive true "imports proxy records into the proxy pool"
    ∷ entry "recheck_proxy_pool" write_sensitive true
        "re-tests the proxy pool and can remove dead entries"
    ∷ entry "delete_proxy" write_sensitive true "removes a proxy from the pool"
    ∷ entry "check_proxy" read_only false "tests proxy reachability — no state mutation"
    ∷ entry "list_pending_challenges" read_only false
        "reads accounts blocked on Instagram login challenge (operator submits code manually)"
    ∷ []

abbrev pub read_only_tools : List Entry
read_only_tools =
    entry "get_account_info" read_only false "reads account metadata"
    ∷ entry "get_user_profile" read_only false "reads a user's public profile"
    ∷ entry "get_followers" read_only false "reads follower list (legacy alias)"
    ∷ entry "get_following" read_only false "reads following list (legacy alias)"
    ∷ entry "list_followers" read_only false "reads follower list"
    ∷ entry "list_following" read_only false "reads following list"
    ∷ entry "search_followers" read_only false "searches within a follower list (server-side)"
    ∷ entry "search_following" read_only false "searches within a following list (server-side)"
    ∷ entry "get_posts" read_only false "reads post list for an account"
    ∷ entry "get_post_details" read_only false "reads a single post's metadata"
    ∷ entry "get_hashtag_posts" read_only false "searches posts by hashtag"
    ∷ entry "get_collection_posts" read_only false "reads saved collection posts"
    ∷ entry "get_scheduled_posts" read_only false "reads the scheduled post queue"
    ∷ entry "get_engagement_stats" read_only false "reads engagement metrics for an account"
    ∷ entry "get_media_by_pk" read_only false "reads a single post by numeric ID"
    ∷ entry "get_media_by_code" read_only false "reads a single post by shortcode"
    ∷ entry "get_user_medias" read_only false "reads post list for a user"
    ∷ entry "get_media_oembed" read_only false "reads oEmbed metadata for a public media URL"
    ∷ entry "search_hashtags" read_only false "searches hashtag metadata by query"
    ∷ entry "get_hashtag" read_only false "reads metadata for one hashtag"
    ∷ entry "list_collections" read_only false "reads saved collection metadata for the account"
    ∷ entry "list_liked_medias" read_only false
        "reads the authenticated account's liked posts history"
    ∷ entry "get_story" read_only false "reads one story with overlay counts"
    ∷ entry "list_user_stories" read_only false "reads active stories for a user"
    ∷ entry "get_highlight" read_only false "reads one highlight and its story items"
    ∷ entry "list_user_highlights" read_only false "reads highlight reels for a user"
    ∷ entry "list_comments" read_only false "reads comments on a post"
    ∷ entry "list_inbox_threads" read_only false "reads DM inbox threads"
    ∷ entry "list_pending_threads" read_only false "reads pending DM requests"
    ∷ entry "search_threads" read_only false "searches DM threads"
    ∷ entry "get_direct_thread" read_only false "reads one DM thread and its messages"
    ∷ entry "list_direct_messages" read_only false "reads messages inside a DM thread"
    ∷ entry "get_media_insight" read_only false "reads analytics for a single post"
    ∷ entry "list_media_insights" read_only false "reads analytics for multiple posts"
    ∷ entry "get_account_insight" read_only false "reads account-level dashboard analytics"
    ∷ []

abbrev pub social_write_tools : List Entry
social_write_tools =
    entry "follow_user" write_sensitive true "modifies follow relationship"
    ∷ entry "unfollow_user" write_sensitive true "modifies follow relationship"
    ∷ entry "remove_follower" write_sensitive true "removes a follower from account"
    ∷ entry "close_friend_add" write_sensitive true "modifies Close Friends list (story audience)"
    ∷ entry "close_friend_remove" write_sensitive true
        "modifies Close Friends list (story audience)"
    ∷ entry "like_post" write_sensitive true "creates a public like action"
    ∷ entry "unlike_post" write_sensitive true "removes a public like action"
    ∷ entry "create_comment" write_sensitive true "creates a public comment on a post"
    ∷ entry "delete_comment" write_sensitive true "deletes a public comment"
    ∷ entry "like_comment" write_sensitive true "likes a public comment"
    ∷ entry "unlike_comment" write_sensitive true "removes like from a public comment"
    ∷ entry "pin_comment" write_sensitive true "pins a public comment on owned media"
    ∷ entry "unpin_comment" write_sensitive true "unpins a public comment on owned media"
    ∷ entry "send_direct_message" write_sensitive true "sends a direct message to a user"
    ∷ entry "send_message_to_thread" write_sensitive true
        "sends a direct message into an existing thread"
    ∷ entry "find_or_create_direct_thread" write_sensitive true
        "creates or reuses a DM thread for specific participants"
    ∷ entry "delete_direct_message" write_sensitive true "deletes a direct message from a thread"
    ∷ entry "approve_pending_direct_thread" write_sensitive true
        "approves a pending direct-message request thread"
    ∷ entry "mark_direct_thread_seen" write_sensitive true "marks a direct-message thread as seen"
    ∷ entry "dm_send_photo" write_sensitive true
        "sends a photo attachment into one or more direct-message threads"
    ∷ entry "dm_send_video" write_sensitive true
        "sends a video attachment into one or more direct-message threads"
    ∷ entry "dm_send_voice" write_sensitive true
        "sends a voice note into one or more direct-message threads"
    ∷ entry "dm_share_media" write_sensitive true
        "shares an existing post into one or more direct-message threads"
    ∷ entry "dm_share_story" write_sensitive true
        "shares an existing story into one or more direct-message threads"
    ∷ []

abbrev pub content_write_tools : List Entry
content_write_tools =
    entry "delete_story" write_sensitive true "deletes a story"
    ∷ entry "mark_stories_seen" write_sensitive true "marks stories as seen/skipped"
    ∷ entry "create_highlight" write_sensitive true "creates a new story highlight reel"
    ∷ entry "delete_highlight" write_sensitive true "permanently deletes a story highlight"
    ∷ entry "change_highlight_title" write_sensitive true "renames a story highlight"
    ∷ entry "add_stories_to_highlight" write_sensitive true "adds stories to a story highlight"
    ∷ entry "remove_stories_from_highlight" write_sensitive true
        "removes stories from a story highlight"
    ∷ entry "schedule_post" write_sensitive true "queues content for scheduled publishing"
    ∷ entry "publish_post" write_sensitive true "publishes content immediately"
    ∷ entry "delete_post" write_sensitive true "permanently deletes a post"
    ∷ entry "update_profile" write_sensitive true "modifies account profile fields"
    ∷ []

abbrev pub blocked_tools : List Entry
blocked_tools =
    entry "delete_account" blocked false "irreversible account deletion"
    ∷ entry "mass_unfollow" blocked false "mass action violates engagement policies"
    ∷ entry "bulk_dm" blocked false "mass DM violates anti-spam policies"
    ∷ entry "scrape_users" blocked false "bulk scraping violates platform ToS"
    ∷ []

abbrev pub allowed_tools : List Entry
allowed_tools =
    app_operator_tools ++ (read_only_tools ++ (social_write_tools ++ content_write_tools))

-- `_CLASSIFICATIONS`
abbrev pub classifications : List Entry
classifications = allowed_tools ++ blocked_tools

abbrev pub policy_only_exceptions : List (String × String)
policy_only_exceptions =
    ("delete_account", "legacy blocked action retained as explicit deny-list entry")
    ∷ ("mass_unfollow", "legacy blocked mass-action retained as explicit deny-list entry")
    ∷ ("bulk_dm", "legacy blocked spam action retained as explicit deny-list entry")
    ∷ ("scrape_users", "legacy blocked scraping action retained as explicit deny-list entry")
    ∷ ("get_user_profile", "legacy read alias retained for compatibility")
    ∷ ("get_followers", "legacy read alias retained for compatibility")
    ∷ ("get_following", "legacy read alias retained for compatibility")
    ∷ ("get_posts", "legacy read alias retained for compatibility")
    ∷ ("get_post_details", "legacy read alias retained for compatibility")
    ∷ ("get_scheduled_posts", "legacy read alias retained for compatibility")
    ∷ ("get_engagement_stats", "legacy read alias retained for compatibility")
    ∷ ("publish_post", "legacy write alias retained for compatibility")
    ∷ ("delete_post", "legacy write alias retained for compatibility")
    ∷ ("update_profile", "legacy write alias retained for compatibility")
    ∷ []
