-- ===== src/Risk/Rules/Defaults.antt =====
-- The built-in rules of backend/internal/risk/engine.go.
use serein.Base.{String, List, [], ◌∷◌}

pub record RuleEntry : Type 0 where
  pub pattern : String
  pub description : String

abbrev pub default_static_blacklist : List RuleEntry
default_static_blacklist =
    record { pattern = "\\brm\\s+-rf?\\s+/\\s*$"; description = "rm -rf 根目录(极危)" }
    ∷ record { pattern = "\\brm\\s+-rf?\\s+/\\*"; description = "rm -rf /* (删根)" }
    ∷ record { pattern = "\\brm\\s+-rf?\\s+~\\s*$"; description = "rm -rf 家目录(极危)" }
    ∷ record { pattern = "\\brm\\s+-rf?\\s+~/"; description = "rm -rf ~/ (删家目录)" }
    ∷ record { pattern = "\\brm\\s+-rf?\\s+\\*\\s*$"; description = "rm -rf * (全删)" }
    ∷ record { pattern = "mkfs\\.\\w+\\s+/dev/"; description = "格式化磁盘设备" }
    ∷ record { pattern = "dd\\s+.*of=/dev/[sh]d"; description = "dd 写裸磁盘" }
    ∷ []

abbrev pub default_red_rules : List RuleEntry
default_red_rules =
    record { pattern = "\\brm\\b.*\\s-[^-]*[rf]"; description = "递归/强制删除" }
    ∷ record { pattern = "^del\\s+/[sSfFqQ]"; description = "Windows 递归删除" }
    ∷ record { pattern = "Remove-Item.*-Recurse"; description = "PowerShell 递归删除" }
    ∷ record { pattern = "^(format|dd|mkfs|diskpart|fdisk)\\b"; description = "磁盘格式化/写" }
    ∷ record { pattern = "^git (push|fetch|pull)\\b"; description = "git 外发" }
    ∷ record { pattern = "^(scp|rsync|sftp)\\b"; description = "远程文件传输" }
    ∷ record { pattern = "^(sudo|runas|doas)\\b"; description = "提权执行" }
    ∷ record { pattern = "\\breg (add|delete|import|load|save)\\b"; description = "注册表修改" }
    ∷ record { pattern = "\\bsetx\\b"; description = "环境变量持久化" }
    ∷ record { pattern = "^npm install\\b.*(\\s-g\\b|--global\\b)"; description = "系统级 npm 安装" }
    ∷ record {
      pattern = "^(pip|pip3) install\\b.*(\\s-g\\b|--global\\b)";
      description = "系统级 pip 安装";
    }
    ∷ record { pattern = "^(shutdown|reboot|halt|poweroff)\\b"; description = "关机/重启" }
    ∷ record { pattern = ":\\(\\)\\s*\\{\\s*:\\|:&\\s*\\}\\s*;"; description = "fork bomb" }
    ∷ record { pattern = "(?:^|[^0-9])>(>?)\\s*\\S"; description = "文件重定向覆盖/追加" }
    ∷ record {
      pattern =
          "^(curl|wget|Invoke-WebRequest)\\b.*(-X\\s*(POST|PUT|DELETE|PATCH)|--upload-file|--data|-d\\b|-T\\b|--post)";
      description = "HTTP 写/上传";
    }
    ∷ record { pattern = "chmod\\s+0?777\\b"; description = "过度开放权限" }
    ∷ record { pattern = "^crontab\\b"; description = "定时任务修改" }
    ∷ record {
      pattern = "^(systemctl|service)\\s+(start|stop|restart|reload|enable|disable)\\b";
      description = "系统服务控制";
    }
    ∷ []

abbrev pub default_yellow_rules : List RuleEntry
default_yellow_rules =
    record {
      pattern = "^git (add|commit|stash|checkout|switch|merge|rebase|reset)\\b";
      description = "git 本地操作";
    }
    ∷ record { pattern = "^npm install\\b"; description = "npm 本地安装" }
    ∷ record { pattern = "^(pip|pip3) install\\b"; description = "pip 本地安装" }
    ∷ record { pattern = "^(mkdir|touch|cp|mv|ln|sed|awk)\\b"; description = "文件操作(可逆)" }
    ∷ record { pattern = "^go (get|install|mod tidy|mod download)\\b"; description = "go 依赖安装" }
    ∷ record {
      pattern = "^(docker|kubectl) (run|exec|build|start|stop|restart|create)\\b";
      description = "容器本地操作";
    }
    ∷ record { pattern = "^(make|cmake|cargo build)\\b"; description = "本地构建" }
    ∷ []

abbrev pub default_green_rules : List RuleEntry
default_green_rules =
    record {
      pattern = "^(ls|ll|la|cat|pwd|echo|whoami|date|dir|cd|cls|clear|true)\\b";
      description = "只读命令";
    }
    ∷ record {
      pattern = "^git (status|log|diff|show|branch|stash list|remote -v|config --get)\\b";
      description = "git 只读";
    }
    ∷ record {
      pattern = "^(go test|go build|go vet|go fmt|go list|go mod|go env|go version|go doc)\\b";
      description = "go 构建/测试";
    }
    ∷ record {
      pattern = "^(npm run|npx|yarn|pnpm) (build|test|lint|dev|start|run|ci)\\b";
      description = "npm 构建/测试";
    }
    ∷ record {
      pattern = "^(grep|rg|find|fd|where|which|tree|head|tail|less|more|wc|sort|uniq)\\b";
      description = "搜索/查看命令";
    }
    ∷ record {
      pattern = "^(python|python3|py|node|go|java|rustc|gcc|flutter|dart) --version\\b";
      description = "版本查询";
    }
    ∷ record {
      pattern = "^(docker|kubectl) (ps|logs|get|describe|top|version|info)\\b";
      description = "容器只读";
    }
    ∷ record { pattern = "^(pytest|jest|vitest|cargo test)\\b"; description = "运行测试" }
    ∷ []
