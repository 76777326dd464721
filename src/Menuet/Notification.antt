-- ===== src/Menuet/Notification.antt =====
-- pkg/menuet/notification.go: the notifications and their categories, as they go to the desktop.
--
-- A node of C is what it holds. `allocated` and `freed` count the nodes of categories.
use flakes.Common.{ℕ, ◌+◌, List, [], ◌∷◌, ◌++◌, Bytes, map, length}

-- `NotificationAction` and `NotificationActionText`
pub data Actioner : Type 0 where
  plain_action : Bytes → Bytes → Actioner
  text_action : Bytes → Bytes → Bytes → Bytes → Actioner

pub data InputType : Type 0 where
  input_none input_text : InputType

pub record ActionNode : Type 0 where
  pub input_type : InputType
  pub identifier : Bytes
  pub title : Bytes
  pub button_title : Bytes
  pub placeholder : Bytes

-- `action` of both, where a node without a text input has no such fields.
unfoldable pub action : Actioner → ActionNode
action (plain_action identifier title) = record {
  input_type = input_none;
  identifier = identifier;
  title = title;
  button_title = [];
  placeholder = [];
}
action (text_action identifier title button placeholder) = record {
  input_type = input_text;
  identifier = identifier;
  title = title;
  button_title = button;
  placeholder = placeholder;
}

pub record NotificationCategory : Type 0 where
  pub identifier : Bytes
  pub actions : List Actioner
  pub options : ℕ

pub record CategoryNode : Type 0 where
  pub identifier : Bytes
  pub actions : List ActionNode
  pub options : ℕ

-- `toNotificationNodeActions`
unfoldable pub to_notification_node_actions : List Actioner → List ActionNode
unfolding action
to_notification_node_actions [] = []
to_notification_node_actions (a ∷ actions) = action a ∷ to_notification_node_actions actions

unfoldable pub category_node : NotificationCategory → CategoryNode
unfolding to_notification_node_actions
category_node cat = record {
  identifier = cat.identifier;
  actions = to_notification_node_actions cat.actions;
  options = cat.options;
}

pub record Notification : Type 0 where
  pub category_identifier : Bytes
  pub identifier : Bytes
  pub title : Bytes
  pub subtitle : Bytes
  pub body : Bytes
  pub presentation_options : ℕ
  pub interruption_level : ℕ

-- The desktop: the categories that are set, the notifications that are shown, and the removed ones.
pub record Desktop : Type 0 where
  pub categories : List CategoryNode
  pub shown : List Notification
  pub removed : List Bytes
  pub allocated : ℕ
  pub freed : ℕ

-- `destroy_notification_category_nodes` of a list
unfoldable pub destroy_category_nodes : List CategoryNode → Desktop → Desktop
destroy_category_nodes nodes d = record d { freed = d.freed + length nodes }

-- `SetNotificationCategories`: the argument of the deferred call is the head at that time, which is
-- nil.
unfoldable pub set_notification_categories : List NotificationCategory → Desktop → Desktop
unfolding category_node destroy_category_nodes
set_notification_categories [] d = d
set_notification_categories (cat ∷ categories) d =
    let nodes = map category_node (cat ∷ categories) in
    destroy_category_nodes []
      (record d { categories = nodes; allocated = d.allocated + length nodes })

-- `Application.Notification`
unfoldable pub show_notification : Notification → Desktop → Desktop
show_notification n d = record d { shown = d.shown ++ n ∷ [] }

-- `RemoveNotification`
unfoldable pub remove_notification : Bytes → Desktop → Desktop
remove_notification [] d = d
remove_notification (c ∷ identifier) d = record d { removed = d.removed ++ (c ∷ identifier) ∷ [] }
